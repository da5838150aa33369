-- ===== src/Ip/Equality.antt =====
-- The laws of bytes.Equal.
use jttp.Prelude.{◌≡◌, refl, true, [], ◌∷◌, arith}
use jttp.Ip.{Bytes, bytes_equal}

pub bytes_equal-eq : (a b : Bytes) → bytes_equal a b ≡ true → a ≡ b
bytes_equal-eq [] [] h = refl
bytes_equal-eq [] (y ∷ ys) h = ground arith
bytes_equal-eq (x ∷ xs) [] h = ground arith
bytes_equal-eq (x ∷ xs) (y ∷ ys) h = ground (arith, bytes_equal-eq xs ys)

pub bytes_equal_comm : (a b : Bytes) → bytes_equal a b ≡ bytes_equal b a
bytes_equal_comm [] [] = refl
bytes_equal_comm [] (y ∷ ys) = refl
bytes_equal_comm (x ∷ xs) [] = refl
bytes_equal_comm (x ∷ xs) (y ∷ ys) = ground (arith, bytes_equal_comm xs ys)

pub bytes_equal_refl : (a : Bytes) → bytes_equal a a ≡ true
bytes_equal_refl [] = refl
bytes_equal_refl (x ∷ xs) = ground (arith, bytes_equal_refl xs)
