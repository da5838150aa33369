-- ===== src/Redirect/Query/Sorted.antt =====
-- The sort of redirect.go's query does not depend on the order of its input.
use jttp.Prelude.{◌≡◌, refl, ap, true, false, List, [], ◌∷◌, arith, Bool-cases, inl, inr}
use jttp.Ip.{Bytes}
use jttp.Redirect.Query.{text_leb, insert_sorted}

text_leb-total : (a b : Bytes) → text_leb a b ≡ false → text_leb b a ≡ true
unfolding text_leb
text_leb-total [] ys h = absurd (cc)
text_leb-total (x ∷ xs) [] h = refl
text_leb-total (x ∷ xs) (y ∷ ys) h = grind (arith, text_leb-total xs ys)

text_leb-antisym : (a b : Bytes) → text_leb a b ≡ true → text_leb b a ≡ true → a ≡ b
unfolding text_leb
text_leb-antisym [] [] h k = refl
text_leb-antisym [] (y ∷ ys) h k = absurd (cc)
text_leb-antisym (x ∷ xs) [] h k = absurd (cc)
text_leb-antisym (x ∷ xs) (y ∷ ys) h k = ground (arith, text_leb-antisym xs ys)

text_leb_trans : (a b c : Bytes) → text_leb a b ≡ true → text_leb b c ≡ true → text_leb a c ≡ true
unfolding text_leb
text_leb_trans [] b c h k = refl
text_leb_trans (x ∷ xs) [] c h k = absurd (cc)
text_leb_trans (x ∷ xs) (y ∷ ys) [] h k = absurd (cc)
text_leb_trans (x ∷ xs) (y ∷ ys) (z ∷ zs) h k = ground (arith, text_leb_trans xs ys zs)

module _ {A : Type 0} (key : A → Bytes) where
  insert_sorted-same :
      (a b : A) (xs : List A)
      → a ≡ b
      → insert_sorted key a (insert_sorted key b xs) ≡ insert_sorted key b (insert_sorted key a xs)
  insert_sorted-same a b xs e = rw e refl

  -- Two elements that are the same if their keys are can be inserted in either order.
  pub insert_sorted-swap :
      (a b : A) (xs : List A)
      → (key a ≡ key b → a ≡ b)
      → insert_sorted key a (insert_sorted key b xs) ≡ insert_sorted key b (insert_sorted key a xs)
  unfolding insert_sorted
  insert_sorted-swap a b [] same = elim (Bool-cases (text_leb (key a) (key b))) [
    | inl ab ↦ elim (Bool-cases (text_leb (key b) (key a))) [
      | inl ba ↦ insert_sorted-same a b [] (same (text_leb-antisym (key a) (key b) ab ba))
      | inr nba ↦ rw (ab, nba) refl
    ]
    | inr nab ↦ rw (nab, text_leb-total (key a) (key b) nab) refl
  ]
  insert_sorted-swap a b (c ∷ xs) same = elim (Bool-cases (text_leb (key a) (key c))) [
    | inl ac ↦ elim (Bool-cases (text_leb (key b) (key c))) [
      | inl bc ↦ elim (Bool-cases (text_leb (key a) (key b))) [
        | inl ab ↦ elim (Bool-cases (text_leb (key b) (key a))) [
          | inl ba ↦ insert_sorted-same a b (c ∷ xs) (same (text_leb-antisym (key a) (key b) ab ba))
          | inr nba ↦ rw (ac, bc) (rw (ab, nba) refl)
        ]
        | inr nab ↦
            let ba = text_leb-total (key a) (key b) nab in rw (ac, bc) (rw (nab, ba) (rw ac refl))
      ]
      | inr nbc ↦ elim (Bool-cases (text_leb (key b) (key a))) [
        | inl ba ↦ absurd (let bc = text_leb_trans (key b) (key a) (key c) ba ac in cc)
        | inr nba ↦ rw (ac, nbc) (rw (nba, ac) refl)
      ]
    ]
    | inr nac ↦ elim (Bool-cases (text_leb (key b) (key c))) [
      | inl bc ↦ elim (Bool-cases (text_leb (key a) (key b))) [
        | inl ab ↦ absurd (let ac = text_leb_trans (key a) (key b) (key c) ab bc in cc)
        | inr nab ↦ rw (nac, bc) (rw (nab, nac) refl)
      ]
      | inr nbc ↦ rw (nac, nbc) (rw nac (ap (λ ys. c ∷ ys) (insert_sorted-swap a b xs same)))
    ]
  ]
