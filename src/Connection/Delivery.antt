-- ===== src/Connection/Delivery.antt =====
-- What one send of the invoker does to the booster that reads it, part by part.
use mapplauncherd.Base.{
  ℕ, suc, ◌+◌, ◌<◌, ◌≡◌, ◌≢◌, refl, ap, ◌∙◌, true, false, List, [], ◌∷◌, ◌++◌, some, Bytes, arith,
  length, length-append, All, append_assoc, append-nil, word_mod, encode_word,
  decode_word-encode_word, length-encode_word, if◌then◌else◌, not, ◌||◌, ltb, ◌==◌,
}
use mapplauncherd.Environ.{putenv}
use mapplauncherd.Wire.{Kernel, IsReliable, Item, bytes}
use mapplauncherd.Connection.State.{
  Connection, c_str, set_last, recv_msg, recv_str_body, recv_str, str_read, str_len_max,
}
use mapplauncherd.Connection.Receive.{putenv_sanitize, recv_argv, put_var, recv_vars}
use mapplauncherd.Invoker.Send.{send_msg, send_str, send_strs}

-- A string that fits the protocol: no zero byte, and with its zero at most 4096 bytes.
pub record IsText (s : Bytes) : Type 0 where
  pub no_zero : All (λ b. b ≢ 0) s
  pub fits : length s < 4096

-- An environment after those of the strings that assign a variable were put into it, in their order.
unfoldable pub assigned : List Bytes → List Bytes → List Bytes
assigned [] env = env
assigned (s ∷ ss) env = assigned ss (if putenv_sanitize s then putenv s env else env)

-- The environment that the strings make alone: of several for one variable, the last one counts.
abbrev pub assignments : List Bytes → List Bytes
assignments ss = assigned ss []

c_str-set_last : (s : Bytes) → All (λ b. b ≢ 0) s → c_str (set_last (s ++ 0 ∷ [])) ≡ s
unfolding c_str set_last
c_str-set_last [] h = refl
c_str-set_last (b ∷ []) h = ground (arith, h.0)
c_str-set_last (b ∷ b' ∷ s) h = ground (arith, h.0, c_str-set_last (b' ∷ s) h.1)

module _ {k : Kernel} where
  recv_argv-suc :
      (c d : Connection k) (n : ℕ) (got : List Bytes) {s : Bytes}
      → recv_str c ≡ (some s, d)
      → recv_argv (suc n) got c ≡ recv_argv n (got ++ s ∷ []) d
  unfolding recv_argv
  recv_argv-suc c d n got e = rw (e, recv_argv) (rw e)

  recv_vars-suc :
      (c d : Connection k) (n : ℕ) {s : Bytes}
      → recv_str c ≡ (some s, d)
      → recv_vars (suc n) c ≡ recv_vars n (put_var s d)
  unfolding recv_vars
  recv_vars-suc c d n e = rw (e, recv_vars) (rw e)

module _ {k : Kernel} {stream : List Item → Bytes → k.Sock} {dup : ℕ → ℕ}
    (r : IsReliable k stream dup) where
  -- The connection `c`, with `inp` to read and `out` written.
  abbrev pub at : Connection k → List Item → Bytes → Connection k
  at c inp out = record c { test_mode = false; sock = stream inp out }

  pub recv_msg-send_msg :
      (c : Connection k) (rest : List Item) (out : Bytes) (msg w : ℕ)
      → w < word_mod
      → recv_msg msg (at c (send_msg w ++ rest) out) ≡ ((true, w), at c rest out)
  unfolding recv_msg send_msg
  recv_msg-send_msg c rest out msg w h =
      rw (r.read_lem 4 (encode_word w) rest out (length-encode_word w))
        (rw (decode_word-encode_word w h, length-encode_word w) refl)

  recv_str_body-bytes :
      (c : Connection k) (rest : List Item) (out : Bytes) (s : Bytes)
      → All (λ b. b ≢ 0) s
      → length s < 4096
      → recv_str_body (length s + 1) (at c (bytes (s ++ 0 ∷ []) ++ rest) out)
        ≡ (some s, at c rest out)
  unfolding recv_str_body str_read
  recv_str_body-bytes c rest out s h lt =
      rw (r.read_lem (length s + 1) (s ++ 0 ∷ []) rest out (length-append s (0 ∷ [])))
        (ground (arith, length-append s (0 ∷ []), c_str-set_last s h))

  -- The test by which `recvStr` refuses a size lets every size of a text pass.
  size_passes :
      (s : Bytes)
      → length s < 4096
      → (not true || (length s + 1) == 0 || ltb str_len_max (length s + 1)) ≡ false
  size_passes s h = ground arith

  -- A string of fewer than 4096 bytes, none of them zero, is received as it was sent, and nothing behind
  -- it is read.
  pub recv_str-send_str :
      (c : Connection k) (rest : List Item) (out : Bytes) (s : Bytes)
      → IsText s
      → recv_str (at c (send_str s ++ rest) out) ≡ (some s, at c rest out)
  unfolding recv_str send_str
  recv_str-send_str c rest out s t = rw append_assoc (
      rw
        (recv_msg-send_msg c (bytes (s ++ 0 ∷ []) ++ rest) out 0 (length s + 1)
          (omega (arith, t.fits)))
        (rw (size_passes s t.fits) (recv_str_body-bytes c rest out s t.no_zero t.fits)))

  pub recv_argv-send_strs :
      (c : Connection k) (rest : List Item) (out : Bytes) (got ss : List Bytes)
      → All IsText ss
      → recv_argv (length ss) got (at c (send_strs ss ++ rest) out)
        ≡ (true, at (record c { argv = some (got ++ ss) }) rest out)
  unfolding send_strs
  recv_argv-send_strs c rest out got [] h = unfold recv_argv in rw append-nil
  recv_argv-send_strs c rest out got (s ∷ ss) h =
      recv_argv-suc _ _ (length ss) got (rw append_assoc (recv_str-send_str c _ out s h.0))
      ∙ recv_argv-send_strs c rest out (got ++ s ∷ []) ss h.1
      ∙ rw append_assoc

  put_var-at :
      (c : Connection k) (rest : List Item) (out : Bytes) (s : Bytes)
      → put_var s (at c rest out) ≡ at (record c { env = assigned (s ∷ []) c.env }) rest out
  unfolding put_var assigned
  put_var-at c rest out s = ground arith

  pub recv_vars-send_strs :
      (c : Connection k) (rest : List Item) (out : Bytes) (ss : List Bytes)
      → All IsText ss
      → recv_vars (length ss) (at c (send_strs ss ++ rest) out)
        ≡ (true, at (record c { env = assigned ss c.env }) rest out)
  unfolding send_strs
  recv_vars-send_strs c rest out [] h = unfold recv_vars assigned in refl
  recv_vars-send_strs c rest out (s ∷ ss) h =
      recv_vars-suc _ _ (length ss) (rw append_assoc (recv_str-send_str c _ out s h.0))
      ∙ ap (recv_vars (length ss)) (put_var-at c (send_strs ss ++ rest) out s)
      ∙ recv_vars-send_strs (record c { env = assigned (s ∷ []) c.env }) rest out ss h.1
      ∙ (unfold assigned in refl)
