-- ===== src/Daemon/Construct/Detach.antt =====
-- The end of `Daemon::daemonize`: the standard descriptors become `/dev/null`.
use mapplauncherd.Base.{
  ℕ, ◌≡◌, ◌≢◌, ◌≤◌, refl, ◌∙◌, [], ◌∷◌, Option, none, some, if◌then◌else◌, ◌==◌, leb, arith,
}
use mapplauncherd.Booster.Environment.{dup2, close, Table, apply, apply_all}

-- `open` gave the descriptor `fd` for the file `null`.
abbrev opened : ℕ → ℕ → Table → Table
opened null fd t x = if x == fd then some null else t x

-- One of the three blocks, for the standard descriptor `i`; none is a failed `open`.
unfoldable pub redirect : ℕ → ℕ → Option ℕ → Table → Table
redirect null i none t = t
redirect null i (some fd) t = apply_all (dup2 fd i ∷ close fd ∷ []) (opened null fd t)

-- The three blocks, with what each `open` gives.
unfoldable pub redirect_all : ℕ → Option ℕ → Option ℕ → Option ℕ → Table → Table
redirect_all null a b c t = redirect null 2 c (redirect null 1 b (redirect null 0 a t))

redirect_lem :
    (null i fd x : ℕ) (t : Table)
    → fd ≢ i
    → t fd ≡ none
    → redirect null i (some fd) t x ≡ (if x == i then some null else t x)
unfolding redirect apply_all apply
redirect_lem null i fd x t ne free = ground arith

-- A daemon in the background has `/dev/null` as its standard input, output and error, and no other of
-- its descriptors has changed, if the three calls of `open` give free descriptors above 2.
pub redirect_all-null :
    (null a b c x : ℕ) (t : Table)
    → 3 ≤ a
    → 3 ≤ b
    → 3 ≤ c
    → t a ≡ none
    → t b ≡ none
    → t c ≡ none
    → redirect_all null (some a) (some b) (some c) t x ≡ (if leb x 2 then some null else t x)
unfolding redirect_all
redirect_all-null null a b c x t la lb lc fa fb fc =
    let t0 = redirect null 0 (some a) t in
    let t1 = redirect null 1 (some b) t0 in
    let s0 : (y : ℕ) → t0 y ≡ (if y == 0 then some null else t y) =
      λ y. redirect_lem null 0 a y t (ground arith) fa in
    let g1 : t0 b ≡ none = ground (arith, s0 b) in
    let s1 : (y : ℕ) → t1 y ≡ (if y == 1 then some null else t0 y) =
      λ y. redirect_lem null 1 b y t0 (ground arith) g1 in
    let g2 : t1 c ≡ none = ground (arith, s1 c, s0 c) in
    redirect_lem null 2 c x t1 (ground arith) g2 ∙ ground (arith, s1 x, s0 x)

-- If the standard input is closed before, so that `open` gives descriptor 0, the block closes it again.
redirect_closed : (null : ℕ) (t : Table) → redirect null 0 (some 0) t 0 ≡ none
unfolding redirect apply_all apply
redirect_closed null t = refl
