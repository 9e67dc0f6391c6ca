-- ===== src/Group/Id.antt =====
-- The group id: eight bytes of each key, in the order of the keys.
use mpc_server.Common.{
  ℕ, zero, suc, ◌+◌, ◌*◌, ◌≡◌, ◌≤◌, ◌-◌, refl, Option, none, some, List, [], ◌∷◌, ◌++◌, Text, slice,
  length, take, drop, arith, ◌↔◌, Option-cases, inl, inr, All, ap, ◌∙◌, sym, length-append,
}
use mathlib.Core.List.{append_assoc, append-nil}
use mpc_server.Group.{PublicKeyGroup, new, push_ids, get_group_id}

abbrev cons_part : Option Text → Option (List Text) → Option (List Text)
cons_part none ps = none
cons_part (some p) none = none
cons_part (some p) (some ps) = some (p ∷ ps)

-- Bytes 2 to 9 of each key; `none` if a key has none.
unfoldable pub key_parts : List Text → Option (List Text)
key_parts [] = some []
key_parts (pk ∷ pks) = cons_part (slice pk 2 10) (key_parts pks)

unfoldable pub flatten : List Text → Text
flatten [] = []
flatten (p ∷ ps) = p ++ flatten ps

abbrev joined : Text → Option (List Text) → Option Text
joined id none = none
joined id (some ps) = some (id ++ flatten ps)

length-drop : (s : Text) (b : ℕ) → length (drop b s) + b ≡ length s + (b - length s)
length-drop s zero = omega arith
length-drop [] (suc b) = omega arith
length-drop (x ∷ s) (suc b) = omega (arith, length-drop s b)

length-take : (s : Text) (a : ℕ) → a ≤ length s → length (take a s) ≡ a
length-take s zero h = refl
length-take [] (suc a) h = absurd (omega arith)
length-take (x ∷ s) (suc a) h = omega (arith, length-take s a)

length-slice : (pk part : Text) → slice pk 2 10 ≡ some part → length part ≡ 8
unfolding slice
length-slice pk part h = ground (arith, length-take (drop 2 pk) 8, length-drop pk 2)

joined-cons_part :
    (id part : Text) (o : Option (List Text))
    → joined (id ++ part) o ≡ joined id (cons_part (some part) o)
unfolding flatten
joined-cons_part id part none = refl
joined-cons_part id part (some ps) = ap some (append_assoc id part (flatten ps))

-- What the loop of `new` adds is the parts, one behind the other.
push_ids-eq-joined : (id : Text) (pks : List Text) → push_ids id pks ≡ joined id (key_parts pks)
unfolding push_ids key_parts flatten
push_ids-eq-joined id [] = ap some (sym (append-nil id))
push_ids-eq-joined id (pk ∷ pks) = elim (Option-cases (slice pk 2 10)) [
  | inl e ↦ rw (e, push_ids, key_parts) refl
  | inr (part, e) ↦
      rw (e, push_ids, key_parts)
        (push_ids-eq-joined (id ++ part) pks ∙ joined-cons_part id part (key_parts pks))
]

-- Every part has eight bytes.
abbrev AreParts : List Text → Type 0
AreParts = All (λ p. length p ≡ 8)

key_parts-AreParts : (pks ps : List Text) → key_parts pks ≡ some ps → AreParts ps
unfolding key_parts
key_parts-AreParts [] [] h = tt
key_parts-AreParts [] (p ∷ ps) h = ground arith
key_parts-AreParts (pk ∷ pks) [] h = ground arith
key_parts-AreParts (pk ∷ pks) (p ∷ ps) h =
    (length-slice pk p (ground arith), key_parts-AreParts pks ps (ground arith))

append_inj : (p q s t : Text) → length p ≡ length q → p ++ s ≡ q ++ t → (p ≡ q) × (s ≡ t)
append_inj [] [] s t l h = (refl, h)
append_inj [] (y ∷ q) s t l h = absurd (omega arith)
append_inj (x ∷ p) [] s t l h = absurd (omega arith)
append_inj (x ∷ p) (y ∷ q) s t l h = ground (arith, append_inj p q s t)

flatten_inj : (ps qs : List Text) → AreParts ps → AreParts qs → flatten ps ≡ flatten qs → ps ≡ qs
unfolding flatten
flatten_inj [] [] hp hq h = refl
flatten_inj [] ([] ∷ qs) hp hq h = ground arith
flatten_inj [] ((y ∷ q) ∷ qs) hp hq h = ground arith
flatten_inj ([] ∷ ps) [] hp hq h = ground arith
flatten_inj ((x ∷ p) ∷ ps) [] hp hq h = ground arith
flatten_inj (p ∷ ps) (q ∷ qs) hp hq h =
    let both = append_inj p q (flatten ps) (flatten qs) (omega arith) h in
    cc (both.0, flatten_inj ps qs hp.1 hq.1 both.1)

length-flatten : (ps : List Text) → AreParts ps → length (flatten ps) ≡ 8 * length ps
unfolding flatten
length-flatten [] h = refl
length-flatten (p ∷ ps) h = omega (arith, length-append p (flatten ps), length-flatten ps h.1)

pub group_id_of_new :
    (pks : List Text) (t : ℕ) (own : Text) (g : PublicKeyGroup)
    → new pks t own ≡ some g
    → (ps : List Text) × (key_parts pks ≡ some ps) × (get_group_id g ≡ flatten ps)
unfolding new
group_id_of_new pks t own g h = elim (Option-cases (key_parts pks)) [
  | inl e ↦ absurd (ground (arith, push_ids-eq-joined [] pks))
  | inr (ps, e) ↦ (ps, e, ground (arith, push_ids-eq-joined [] pks))
]

-- `new` panics exactly when some key has no bytes 2 to 9.
pub new-panics_iff :
    (pks : List Text) (t : ℕ) (own : Text) → (new pks t own ≡ none) ↔ (key_parts pks ≡ none)
unfolding new
new-panics_iff pks t own = ground (arith, push_ids-eq-joined [] pks)

-- Two groups that `new` makes have one id exactly when their keys, in order, have the same bytes 2
-- to 9.
pub group_id_eq_iff :
    (pks pks' : List Text) (t t' : ℕ) (own own' : Text) (g g' : PublicKeyGroup)
    → new pks t own ≡ some g
    → new pks' t' own' ≡ some g'
    → (get_group_id g ≡ get_group_id g') ↔ (key_parts pks ≡ key_parts pks')
group_id_eq_iff pks pks' t t' own own' g g' h h' =
    let a = group_id_of_new pks t own g h in
    let b = group_id_of_new pks' t' own' g' h' in
    (
      (λ e.
          a.1
          ∙ ap some (
              flatten_inj a.0 b.0 (key_parts-AreParts pks a.0 a.1) (key_parts-AreParts pks' b.0 b.1)
                (sym a.2 ∙ e ∙ b.2))
          ∙ sym b.1),
      (λ e. cc (a.1, b.1, a.2, b.2, e)),
    )
