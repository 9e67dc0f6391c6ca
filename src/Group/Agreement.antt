-- ===== src/Group/Agreement.antt =====
-- One list of keys, as several of its holders make a group of it.
use mpc_server.Common.{
  ℕ, zero, suc, ◌+◌, ◌-◌, ◌≡◌, ◌<◌, refl, sym, ap, ◌∙◌, Bool, true, false, some, List, [], ◌∷◌,
  ◌++◌, ok, Text, slice, contains, starts_with, length, get_elem?, arith, Option-cases, inl, inr,
  ◌||◌, ==_iff,
}
use mathlib.Core.List.{append_assoc}
use mpc_server.Common.Fallible.{ok-injective}
use mpc_server.Failure.{Failure}
use mpc_server.Group.{
  PublicKeyGroup, new, get_group_id, get_index, get_i, get_public_key, push_ids, position,
}
use mpc_server.Group.Id.{key_parts, flatten, group_id_of_new, group_id_eq_iff}
use mpc_server.Group.Index.{position_found, get_elem-get_public_key, index_of_position, get_i_lem}

starts_with-append : (p s : Text) → starts_with (p ++ s) p ≡ true
unfolding starts_with
starts_with-append [] [] = refl
starts_with-append [] (c ∷ s) = refl
starts_with-append (c ∷ p) s = rw ((==_iff c c).1 refl, starts_with) (starts_with-append p s)

or_true : (b : Bool) → (b || true) ≡ true
or_true true = refl
or_true false = refl

contains_start : (p s : Text) → starts_with s p ≡ true → contains s p ≡ true
unfolding contains
contains_start p [] h = h
contains_start p (c ∷ s) h = rw (h, contains) refl

-- A text contains each of its parts.
pub contains-append : (a p b : Text) → contains (a ++ (p ++ b)) p ≡ true
unfolding contains
contains-append [] p b = contains_start p (p ++ b) (starts_with-append p b)
contains-append (c ∷ a) p b =
    rw (contains-append a p b) (or_true (starts_with (c ∷ (a ++ (p ++ b))) p))

-- The part of the first key, or of one behind it.
abbrev HasPart : Text → Text → Type 0
HasPart key whole =
    (part : Text) × (slice key 2 10 ≡ some part)
    × (before : Text) × (after : Text) × (whole ≡ before ++ (part ++ after))

later_part : (p key rest : Text) → HasPart key rest → HasPart key (p ++ rest)
later_part p key rest (part, e, before, after, at) =
    (part, e, p ++ before, after, ap (λ r. p ++ r) at ∙ sym (append_assoc p before (part ++ after)))

-- Each key has a part, and the parts are in the text that is made of all of them.
part_of_key :
    (pks ps : List Text) (i : ℕ) (key : Text)
    → key_parts pks ≡ some ps
    → get_elem? pks i ≡ some key
    → HasPart key (flatten ps)
unfolding key_parts flatten
part_of_key [] ps i key h at = absurd (ground arith)
part_of_key (pk ∷ pks) [] i key h at = absurd (ground arith)
part_of_key (pk ∷ pks) (p ∷ ps) zero key h at = (p, ground arith, [], flatten ps, refl)
part_of_key (pk ∷ pks) (p ∷ ps) (suc i) key h at =
    later_part p key (flatten ps) (part_of_key pks ps i key (ground arith) at)

module _ (pks : List Text) (t : ℕ) (own : Text) (g : PublicKeyGroup)
    (made : new pks t own ≡ some g) where
  -- What `new` keeps of its arguments.
  pub new_fields : (g.public_keys ≡ pks) × (g.own_public_key ≡ own) × (g.t ≡ t)
  unfolding new
  new_fields = elim (Option-cases (push_ids [] pks)) [
    | inl e ↦ absurd (ground arith)
    | inr (id, e) ↦ (ground arith, ground arith, ground arith)
  ]

  -- Eight bytes of each key are in every room of the group.
  pub room_has_part :
      (i : ℕ) (key before : Text)
      → get_elem? pks i ≡ some key
      → (part : Text) × (slice key 2 10 ≡ some part)
        × (contains (before ++ get_group_id g) part ≡ true)
  room_has_part i key before at =
      let (ps, parts, id) = group_id_of_new pks t own g made in
      let (part, e, front, back, whole) = part_of_key pks ps i key parts at in
      let here : before ++ get_group_id g ≡ (before ++ front) ++ (part ++ back) =
        ap (λ r. before ++ r) (id ∙ whole) ∙ sym (append_assoc before front (part ++ back)) in
      (part, e, ap (λ r. contains r part) here ∙ contains-append (before ++ front) part back)

  -- A holder whose own index is known stands at that index.
  pub own_place :
      (i : ℕ)
      → length pks < 65536
      → get_i g ≡ some i
      → (get_public_key g i ≡ ok own) × (get_elem? pks (i - 1) ≡ some own)
  own_place i small mine =
      let (keys, me, _) = new_fields in
      let (at, _, _) = get_i_lem g i (omega (arith, ap length keys)) mine in
      let at' : get_public_key g i ≡ ok own = at ∙ ap ok me in
      (at', ap (λ ks. get_elem? ks (i - 1)) (sym keys) ∙ (get_elem-get_public_key g own i at').1)

  -- A key of the list is found at some index.
  pub found_key :
      (i : ℕ) (key : Text) → get_elem? pks i ≡ some key → (k : ℕ) × (get_index g key ≡ some k)
  found_key i key at =
      let at' : get_elem? g.public_keys i ≡ some key =
        ap (λ ks. get_elem? ks i) (new_fields).0 ∙ at in
      elim (Option-cases (position key g.public_keys)) [
        | inl e ↦ absurd (position_found key g.public_keys i at' e)
        | inr (j, e) ↦ (j + 1, index_of_position g key j e)
      ]

-- A group with another threshold is made in the same way.
pub new_threshold :
    (pks : List Text) (t t' : ℕ) (own : Text) (g : PublicKeyGroup)
    → new pks t own ≡ some g
    → new pks t' own ≡ some (record g { t = t' })
unfolding new
new_threshold pks t t' own g h = elim (Option-cases (push_ids [] pks)) [
  | inl e ↦ absurd (ground arith)
  | inr (id, e) ↦
      let built : g ≡ record { group_id = id; t = t; public_keys = pks; own_public_key = own } =
        ground arith in
      rw (new, e, built) refl
]

module _ (pks : List Text) (t : ℕ) (a b : Text) (ga gb : PublicKeyGroup)
    (made_a : new pks t a ≡ some ga) (made_b : new pks t b ≡ some gb) where
  -- Two holders make groups of one id, in which the same keys stand at the same places.
  pub same_group :
      (get_group_id ga ≡ get_group_id gb) × ((i : ℕ) → get_public_key ga i ≡ get_public_key gb i)
  unfolding get_public_key
  same_group = (
    (group_id_eq_iff pks pks t t a b ga gb made_a made_b).1 refl,
    λ i.
        let keys : ga.public_keys ≡ gb.public_keys =
          (new_fields pks t a ga made_a).0 ∙ sym (new_fields pks t b gb made_b).0 in
        rw keys refl,
  )

  -- Two holders with different keys have different indices.
  pub own_indices_differ :
      (i j : ℕ) → length pks < 65536 → get_i ga ≡ some i → get_i gb ≡ some j → i ≡ j → a ≡ b
  own_indices_differ i j small mine theirs same =
      let (at, _) = own_place pks t a ga made_a i small mine in
      let (at', _) = own_place pks t b gb made_b j small theirs in
      ok-injective {E = Failure} (sym at ∙ ap (get_public_key ga) same ∙ same_group.1 j ∙ at')
