-- ===== src/Map/Order.antt =====
-- The order of the keys, `std::less`: of pids by number, of names byte by byte.
use mapplauncherd.Base.{
  Bool, true, false, [], ◌∷◌, ◌≡◌, ◌↔◌, ◌||◌, ◌&&◌, ◌==◌, ltb, arith, Bytes, bytes_eq, bytes_eq_iff,
  ℤ, pos, negsuc, int_eq, int_lt, int_eq_iff,
}

pub record Ord {ℓ} (K : Type ℓ) : Type ℓ where
  pub eqb : K → K → Bool
  pub ltb : K → K → Bool
  pub eqb_iff : (a b : K) → (eqb a b ≡ true) ↔ (a ≡ b)
  pub lt_ne : (a b : K) → ltb a b ≡ true → eqb a b ≡ false
  pub lt_asymm : (a b : K) → ltb a b ≡ true → ltb b a ≡ false
  pub lt_total : (a b : K) → eqb a b ≡ false → ltb a b ≡ false → ltb b a ≡ true
  pub lt_trans : (a b c : K) → ltb a b ≡ true → ltb b c ≡ true → ltb a c ≡ true

pub int_lt-ne : (a b : ℤ) → int_lt a b ≡ true → int_eq a b ≡ false
int_lt-ne (pos m) b = ground arith
int_lt-ne (negsuc m) b = ground arith

pub int_lt-asymm : (a b : ℤ) → int_lt a b ≡ true → int_lt b a ≡ false
int_lt-asymm (pos m) b = ground arith
int_lt-asymm (negsuc m) b = ground arith

pub int_lt-total : (a b : ℤ) → int_eq a b ≡ false → int_lt a b ≡ false → int_lt b a ≡ true
int_lt-total (pos m) b = ground arith
int_lt-total (negsuc m) b = ground arith

pub int_lt_trans : (a b c : ℤ) → int_lt a b ≡ true → int_lt b c ≡ true → int_lt a c ≡ true
int_lt_trans (pos m) b c = ground arith
int_lt_trans (negsuc m) b c = ground arith

instance abbrev pub int_ord : Ord ℤ
int_ord = record {
  eqb = int_eq;
  ltb = int_lt;
  eqb_iff = int_eq_iff;
  lt_ne = int_lt-ne;
  lt_asymm = int_lt-asymm;
  lt_total = int_lt-total;
  lt_trans = int_lt_trans;
}

unfoldable pub bytes_lt : Bytes → Bytes → Bool
bytes_lt [] [] = false
bytes_lt [] (y ∷ b) = true
bytes_lt (x ∷ a) [] = false
bytes_lt (x ∷ a) (y ∷ b) = ltb x y || (x == y && bytes_lt a b)

pub bytes_lt-ne : (a b : Bytes) → bytes_lt a b ≡ true → bytes_eq a b ≡ false
unfolding bytes_lt bytes_eq
bytes_lt-ne (x ∷ a) (y ∷ b) = ground (arith, bytes_lt-ne a b)
bytes_lt-ne [] (y ∷ b) = ground arith
bytes_lt-ne (x ∷ a) [] = ground arith
bytes_lt-ne [] [] = ground arith

pub bytes_lt-asymm : (a b : Bytes) → bytes_lt a b ≡ true → bytes_lt b a ≡ false
unfolding bytes_lt
bytes_lt-asymm (x ∷ a) (y ∷ b) = ground (arith, bytes_lt-asymm a b)
bytes_lt-asymm [] (y ∷ b) = ground arith
bytes_lt-asymm (x ∷ a) [] = ground arith
bytes_lt-asymm [] [] = ground arith

pub bytes_lt-total :
    (a b : Bytes) → bytes_eq a b ≡ false → bytes_lt a b ≡ false → bytes_lt b a ≡ true
unfolding bytes_lt bytes_eq
bytes_lt-total (x ∷ a) (y ∷ b) = ground (arith, bytes_lt-total a b)
bytes_lt-total [] (y ∷ b) = ground arith
bytes_lt-total (x ∷ a) [] = ground arith
bytes_lt-total [] [] = ground arith

pub bytes_lt_trans :
    (a b c : Bytes) → bytes_lt a b ≡ true → bytes_lt b c ≡ true → bytes_lt a c ≡ true
unfolding bytes_lt
bytes_lt_trans (x ∷ a) (y ∷ b) (z ∷ c) = ground (arith, bytes_lt_trans a b c)
bytes_lt_trans [] (y ∷ b) (z ∷ c) = ground arith
bytes_lt_trans a b [] = ground arith
bytes_lt_trans a [] c = ground arith

instance abbrev pub bytes_ord : Ord Bytes
bytes_ord = record {
  eqb = bytes_eq;
  ltb = bytes_lt;
  eqb_iff = bytes_eq_iff;
  lt_ne = bytes_lt-ne;
  lt_asymm = bytes_lt-asymm;
  lt_total = bytes_lt-total;
  lt_trans = bytes_lt_trans;
}
