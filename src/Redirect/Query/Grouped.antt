-- ===== src/Redirect/Query/Grouped.antt =====
-- The pairs that the canonical form writes are those of the query, in another order.
use mathlib.Core.List.Permᴰ
use mathlib.Core.List.{Permᴰ, append_assoc, map-append}
use jttp.Prelude.{◌≡◌, refl, sym, List, [], ◌∷◌, ◌++◌, map, Bool-cases, inl, inr}
use jttp.Ip.{Bytes, bytes_equal}
use jttp.Ip.Equality.{bytes_equal-eq}
use jttp.Redirect.Query.{
  Values, add_value, text_leb, insert_sorted, sort_by, sorted_pairs, pairs_of,
}
use jttp.Redirect.Query.Reordered.{
  IsReordered, same, both, plain_pairs, add_value-swap, add_value-IsReordered,
  sorted_pairs-IsReordered,
}
use jttp.Redirect.Query.Pairs.{Pairs, add_all, grouped}

Perm-eq : {A : Type 0} (xs ys : List A) → xs ≡ ys → Permᴰ xs ys
Perm-eq xs ys e = rw e (Permᴰ.refl ys)

insert_sorted-Perm :
    {A : Type 0} (key : A → Bytes) (a : A) (xs : List A) → Permᴰ (insert_sorted key a xs) (a ∷ xs)
unfolding insert_sorted
insert_sorted-Perm key a [] = Permᴰ.refl (a ∷ [])
insert_sorted-Perm key a (b ∷ xs) = elim (Bool-cases (text_leb (key a) (key b))) [
  | inl le ↦ rw le (Permᴰ.refl (a ∷ b ∷ xs))
  | inr gt ↦
      rw gt (Permᴰ.trans (Permᴰ.cons refl (insert_sorted-Perm key a xs)) (Permᴰ.swap refl refl))
]

sort_by-Perm : {A : Type 0} (key : A → Bytes) (xs : List A) → Permᴰ (sort_by key xs) xs
unfolding sort_by
sort_by-Perm key [] = Permᴰ.nil
sort_by-Perm key (a ∷ xs) =
    Permᴰ.trans (insert_sorted-Perm key a (sort_by key xs)) (Permᴰ.cons refl (sort_by-Perm key xs))

append-Perm :
    {A : Type 0} (xs xs' ys ys' : List A)
    → Permᴰ xs xs'
    → Permᴰ ys ys'
    → Permᴰ (xs ++ ys) (xs' ++ ys')
append-Perm xs xs' ys ys' d e = Permᴰ.trans (Permᴰ.append_right ys d) (Permᴰ.append_left xs' e)

-- Two parts in front change places.
exchange-Perm : {A : Type 0} (xs ys zs : List A) → Permᴰ (xs ++ (ys ++ zs)) (ys ++ (xs ++ zs))
exchange-Perm xs ys zs = Permᴰ.trans (Perm-eq _ _ (sym (append_assoc xs ys zs))) (
    Permᴰ.trans (Permᴰ.append_right zs (Permᴰ.append_comm xs ys))
      (Perm-eq _ _ (append_assoc ys xs zs)))

-- The pairs of one key.
abbrev key_pairs : Bytes × List Bytes → Pairs
key_pairs (k, vs) = map (λ v. (k, v)) vs

plain_pairs-insert_sorted :
    (e : Bytes × List Bytes) (m : Values)
    → Permᴰ (plain_pairs (insert_sorted (λ f. f.0) e m)) (key_pairs e ++ plain_pairs m)
unfolding insert_sorted plain_pairs
plain_pairs-insert_sorted (k, vs) [] = Permᴰ.refl (key_pairs (k, vs) ++ [])
plain_pairs-insert_sorted (k, vs) ((l, ws) ∷ m) = elim (Bool-cases (text_leb k l)) [
  | inl le ↦ rw le (Permᴰ.refl (key_pairs (k, vs) ++ plain_pairs ((l, ws) ∷ m)))
  | inr gt ↦ rw gt (
      Permᴰ.trans (Permᴰ.append_left (key_pairs (l, ws)) (plain_pairs-insert_sorted (k, vs) m))
        (exchange-Perm (key_pairs (l, ws)) (key_pairs (k, vs)) (plain_pairs m)))
]

plain_pairs-sort_by : (m : Values) → Permᴰ (plain_pairs (sort_by (λ e. e.0) m)) (plain_pairs m)
unfolding sort_by plain_pairs
plain_pairs-sort_by [] = Permᴰ.nil
plain_pairs-sort_by ((k, vs) ∷ m) =
    Permᴰ.trans (plain_pairs-insert_sorted (k, vs) (sort_by (λ e. e.0) m))
      (Permᴰ.append_left (key_pairs (k, vs)) (plain_pairs-sort_by m))

sorted_pairs-Perm : (m : Values) → Permᴰ (sorted_pairs m) (plain_pairs m)
unfolding sorted_pairs plain_pairs pairs_of
sorted_pairs-Perm [] = Permᴰ.nil
sorted_pairs-Perm ((k, vs) ∷ m) =
    append-Perm (pairs_of (k, vs)) (key_pairs (k, vs)) (sorted_pairs m) (plain_pairs m)
      (Permᴰ.map (λ v. (k, v)) (sort_by-Perm (λ v. v) vs)) (sorted_pairs-Perm m)

key_pairs-last :
    (k v : Bytes) (vs : List Bytes) (ps : Pairs)
    → Permᴰ (key_pairs (k, vs ++ v ∷ []) ++ ps) ((k, v) ∷ (key_pairs (k, vs) ++ ps))
key_pairs-last k v vs ps =
    rw (map-append, append_assoc) (Permᴰ.middle (k, v) (key_pairs (k, vs)) ps)

plain_pairs-add_value :
    (k v : Bytes) (m : Values) → Permᴰ (plain_pairs (add_value k v m)) ((k, v) ∷ plain_pairs m)
unfolding add_value plain_pairs
plain_pairs-add_value k v [] = Permᴰ.refl ((k, v) ∷ [])
plain_pairs-add_value k v ((l, vs) ∷ m) = elim (Bool-cases (bytes_equal l k)) [
  | inl here ↦
      let eq = bytes_equal-eq l k here in rw (here, eq) (key_pairs-last k v vs (plain_pairs m))
  | inr later ↦ rw later (
      Permᴰ.trans (Permᴰ.append_left (key_pairs (l, vs)) (plain_pairs-add_value k v m))
        (Permᴰ.middle (k, v) (key_pairs (l, vs)) (plain_pairs m)))
]

plain_pairs-add_all :
    (ps : Pairs) (m : Values) → Permᴰ (plain_pairs (add_all ps m)) (ps ++ plain_pairs m)
plain_pairs-add_all [] m = Permᴰ.refl (plain_pairs m)
plain_pairs-add_all ((k, v) ∷ ps) m = Permᴰ.trans (plain_pairs-add_all ps (add_value k v m)) (
    Permᴰ.trans (Permᴰ.append_left ps (plain_pairs-add_value k v m))
      (Permᴰ.middle (k, v) ps (plain_pairs m)))

pub grouped-Perm : (ps : Pairs) → Permᴰ (grouped ps) ps
unfolding grouped plain_pairs
grouped-Perm ps =
    let m = add_all ps [] in
    Permᴰ.trans (sorted_pairs-Perm (sort_by (λ e. e.0) m)) (
      Permᴰ.trans (plain_pairs-sort_by m)
        (Permᴰ.trans (plain_pairs-add_all ps []) (Permᴰ.append-nil ps)))

add_all-IsReordered :
    (ps : Pairs) (m n : Values) → IsReordered m n → IsReordered (add_all ps m) (add_all ps n)
add_all-IsReordered [] m n h = h
add_all-IsReordered ((k, v) ∷ ps) m n h =
    add_all-IsReordered ps (add_value k v m) (add_value k v n) (add_value-IsReordered k v m n h)

add_all-Perm :
    (ps qs : Pairs) → Permᴰ ps qs → (m : Values) → IsReordered (add_all ps m) (add_all qs m)
add_all-Perm ps qs Permᴰ.nil m = same m
add_all-Perm ps qs (Permᴰ.cons {a = a} {b = b} {l₁ = ps'} {l₂ = qs'} e d) m =
    rw e (add_all-Perm ps' qs' d (add_value b.0 b.1 m))
add_all-Perm ps qs (Permᴰ.swap {a = a} {b = b} {a' = a'} {b' = b'} {l = l} e f) m =
    rw (e, f)
      (add_all-IsReordered l (add_value a'.0 a'.1 (add_value b'.0 b'.1 m))
        (add_value b'.0 b'.1 (add_value a'.0 a'.1 m)) (add_value-swap b'.0 a'.0 b'.1 a'.1 m))
add_all-Perm ps qs (Permᴰ.trans {l₂ = rs} d e) m =
    both (add_all-Perm ps rs d m) (add_all-Perm rs qs e m)

-- The order of the pairs does not matter.
pub grouped-same : (ps qs : Pairs) → Permᴰ ps qs → grouped ps ≡ grouped qs
unfolding grouped
grouped-same ps qs d =
    sorted_pairs-IsReordered (add_all ps []) (add_all qs []) (add_all-Perm ps qs d [])
