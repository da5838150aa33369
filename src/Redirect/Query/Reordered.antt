-- ===== src/Redirect/Query/Reordered.antt =====
-- Values of a query that differ only in the order of their keys, and in that of the values of a key.
use mathlib.Core.List.{append_assoc}
use jttp.Prelude.{
  ◌≢◌, ◌≡◌, refl, sym, ap, ◌∙◌, true, false, List, [], ◌∷◌, ◌++◌, map, arith, Bool-cases, inl, inr,
}
use jttp.Ip.{Bytes, bytes_equal}
use jttp.Ip.Equality.{bytes_equal-eq, bytes_equal_comm}
use jttp.Redirect.Query.{
  Values, add_value, insert_sorted, sort_by, sorted_pairs, text_leb, pairs_of,
}
use jttp.Redirect.Query.Sorted.{insert_sorted-swap}

-- Changes of the order of entries with different keys, and of the order of the values of a key.
pub data IsReordered : Values → Values → Type 0 where
  same : (m : Values) → IsReordered m m
  entry : (e : Bytes × List Bytes) {m n : Values} → IsReordered m n → IsReordered (e ∷ m) (e ∷ n)
  entries :
      (k l : Bytes) (vs ws : List Bytes) (m : Values)
      → bytes_equal k l ≡ false
      → IsReordered ((k, vs) ∷ (l, ws) ∷ m) ((l, ws) ∷ (k, vs) ∷ m)
  values :
      (k : Bytes) (vs : List Bytes) (v w : Bytes) (ws : List Bytes) (m : Values)
      → IsReordered ((k, vs ++ v ∷ w ∷ ws) ∷ m) ((k, vs ++ w ∷ v ∷ ws) ∷ m)
  both : {m n o : Values} → IsReordered m n → IsReordered n o → IsReordered m o

bytes_equal_refl : (k : Bytes) → bytes_equal k k ≡ true
bytes_equal_refl [] = refl
bytes_equal_refl (c ∷ k) = ground (arith, bytes_equal_refl k)

bytes_equal-distinct : (k l : Bytes) → bytes_equal k l ≡ false → k ≢ l
bytes_equal-distinct k l h e = let equal : bytes_equal k l ≡ true = rw e (bytes_equal_refl l) in cc

sort_by-swap :
    (vs : List Bytes) (v w : Bytes) (ws : List Bytes)
    → sort_by (λ x. x) (vs ++ v ∷ w ∷ ws) ≡ sort_by (λ x. x) (vs ++ w ∷ v ∷ ws)
unfolding sort_by
sort_by-swap [] v w ws = insert_sorted-swap (λ x. x) v w (sort_by (λ x. x) ws) (λ e. e)
sort_by-swap (x ∷ vs) v w ws = ap (λ ys. insert_sorted (λ z. z) x ys) (sort_by-swap vs v w ws)

-- The entries with their values sorted.
abbrev sorted_entry : Bytes × List Bytes → Bytes × List Bytes
sorted_entry (k, vs) = (k, sort_by (λ v. v) vs)

abbrev key_of : Bytes × List Bytes → Bytes
key_of e = e.0

insert_sorted-entry :
    (e : Bytes × List Bytes) (m : Values)
    → map sorted_entry (insert_sorted key_of e m)
      ≡ insert_sorted key_of (sorted_entry e) (map sorted_entry m)
unfolding insert_sorted
insert_sorted-entry e [] = refl
insert_sorted-entry e (f ∷ m) = elim (Bool-cases (text_leb e.0 f.0)) [
  | inl le ↦ rw le refl
  | inr gt ↦ rw gt (ap (λ n. sorted_entry f ∷ n) (insert_sorted-entry e m))
]

sort_by-entries :
    (m : Values) → map sorted_entry (sort_by key_of m) ≡ sort_by key_of (map sorted_entry m)
unfolding sort_by
sort_by-entries [] = refl
sort_by-entries (e ∷ m) =
    insert_sorted-entry e (sort_by key_of m)
    ∙ ap (λ n. insert_sorted key_of (sorted_entry e) n) (sort_by-entries m)

sort_by-IsReordered :
    (m n : Values)
    → IsReordered m n
    → sort_by key_of (map sorted_entry m) ≡ sort_by key_of (map sorted_entry n)
unfolding sort_by
sort_by-IsReordered m n (same o) = refl
sort_by-IsReordered m n (entry e h) =
    ap (λ o. insert_sorted key_of (sorted_entry e) o) (sort_by-IsReordered _ _ h)
sort_by-IsReordered m n (entries k l vs ws o different) =
    insert_sorted-swap key_of (sorted_entry (k, vs)) (sorted_entry (l, ws))
      (sort_by key_of (map sorted_entry o)) (λ e. absurd (bytes_equal-distinct k l different e))
sort_by-IsReordered m n (values k vs v w ws o) =
    ap (λ us. insert_sorted key_of (k, us) (sort_by key_of (map sorted_entry o)))
      (sort_by-swap vs v w ws)
sort_by-IsReordered m n (both h i) = sort_by-IsReordered _ _ h ∙ sort_by-IsReordered _ _ i

-- The pairs of entries whose values are sorted.
unfoldable pub plain_pairs : Values → List (Bytes × Bytes)
plain_pairs [] = []
plain_pairs ((k, vs) ∷ m) = map (λ v. (k, v)) vs ++ plain_pairs m

sorted_pairs_lem : (m : Values) → sorted_pairs m ≡ plain_pairs (map sorted_entry m)
unfolding sorted_pairs plain_pairs sort_by pairs_of
sorted_pairs_lem [] = refl
sorted_pairs_lem ((k, vs) ∷ m) = ap (λ ps. pairs_of (k, vs) ++ ps) (sorted_pairs_lem m)

pub sorted_pairs-IsReordered :
    (m n : Values)
    → IsReordered m n
    → sorted_pairs (sort_by (λ e. e.0) m) ≡ sorted_pairs (sort_by (λ e. e.0) n)
sorted_pairs-IsReordered m n h =
    sorted_pairs_lem (sort_by key_of m)
    ∙ (ap plain_pairs (sort_by-entries m ∙ (sort_by-IsReordered m n h ∙ sym (sort_by-entries n)))
        ∙ sym (sorted_pairs_lem (sort_by key_of n)))

add_value-same :
    (k v w : Bytes) (m : Values)
    → IsReordered (add_value k w (add_value k v m)) (add_value k v (add_value k w m))
unfolding add_value
add_value-same k v w [] = rw (bytes_equal_refl k) (values k [] v w [] [])
add_value-same k v w ((l, vs) ∷ m) = elim (Bool-cases (bytes_equal l k)) [
  | inl here ↦ rw here (rw (here, append_assoc, append_assoc) (values l vs v w [] m))
  | inr later ↦ rw later (rw later (entry (l, vs) (add_value-same k v w m)))
]

add_value-other :
    (k l v w : Bytes) (m : Values)
    → bytes_equal k l ≡ false
    → IsReordered (add_value l w (add_value k v m)) (add_value k v (add_value l w m))
unfolding add_value
add_value-other k l v w [] different =
    rw (different, bytes_equal_comm l k) (rw different (entries k l (v ∷ []) (w ∷ []) [] different))
add_value-other k l v w ((x, vs) ∷ m) different = elim (Bool-cases (bytes_equal x k)) [
  | inl xk ↦ elim (Bool-cases (bytes_equal x l)) [
    | inl xl ↦
        absurd
          (bytes_equal-distinct k l different (sym (bytes_equal-eq x k xk) ∙ bytes_equal-eq x l xl))
    | inr nxl ↦ rw (xk, nxl) (rw xk (same _))
  ]
  | inr nxk ↦ elim (Bool-cases (bytes_equal x l)) [
    | inl xl ↦ rw (nxk, xl) (rw nxk (same _))
    | inr nxl ↦ rw (nxk, nxl) (rw nxk (entry (x, vs) (add_value-other k l v w m different)))
  ]
]

-- Two values can be added in either order.
pub add_value-swap :
    (k l v w : Bytes) (m : Values)
    → IsReordered (add_value l w (add_value k v m)) (add_value k v (add_value l w m))
add_value-swap k l v w m = elim (Bool-cases (bytes_equal k l)) [
  | inl equal ↦ let eq = bytes_equal-eq k l equal in rw eq (add_value-same l v w m)
  | inr different ↦ add_value-other k l v w m different
]

pub add_value-IsReordered :
    (k v : Bytes) (m n : Values) → IsReordered m n → IsReordered (add_value k v m) (add_value k v n)
unfolding add_value
add_value-IsReordered k v m n (same o) = same _
add_value-IsReordered k v m n (entry (l, vs) h) = elim (Bool-cases (bytes_equal l k)) [
  | inl here ↦ rw here (entry (l, vs ++ v ∷ []) h)
  | inr later ↦ rw later (entry (l, vs) (add_value-IsReordered k v _ _ h))
]
add_value-IsReordered k v m n (entries x y vs ws o different) =
    elim (Bool-cases (bytes_equal x k)) [
      | inl xk ↦ elim (Bool-cases (bytes_equal y k)) [
        | inl yk ↦ absurd (
            bytes_equal-distinct x y different
              (bytes_equal-eq x k xk ∙ sym (bytes_equal-eq y k yk)))
        | inr nyk ↦ rw (xk, nyk) (entries x y (vs ++ v ∷ []) ws o different)
      ]
      | inr nxk ↦ elim (Bool-cases (bytes_equal y k)) [
        | inl yk ↦ rw (nxk, yk) (entries x y vs (ws ++ v ∷ []) o different)
        | inr nyk ↦ rw (nxk, nyk) (entries x y vs ws (add_value k v o) different)
      ]
    ]
add_value-IsReordered k v m n (values l vs x y ws o) = elim (Bool-cases (bytes_equal l k)) [
  | inl here ↦ rw (here, append_assoc, append_assoc) (values l vs x y (ws ++ v ∷ []) o)
  | inr later ↦ rw later (values l vs x y ws (add_value k v o))
]
add_value-IsReordered k v m n (both h i) =
    both (add_value-IsReordered k v _ _ h) (add_value-IsReordered k v _ _ i)
