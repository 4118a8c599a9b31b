-- ===== src/Net/Factory/Registration.antt =====
-- What a registration means for the later operations.
use mathlib.Core.Option.{get_or}
use libgossip.Base.{
  ◌≡◌, refl, sym, ap, ◌∙◌, inl, inr, Bool, true, false, Option, none, some, List, [], ◌∷◌, ◌++◌,
  arith, holds, Bytes, bytes_discrete, Bool-cases, Option-cases, if_true, if_false,
}
use libgossip.Core.State.Frame.{same_id-eq}
use libgossip.Net.Factory.{
  Creator, find_creator, add_if_absent, register_serializer, json_name, init_defaults, create,
  has_serializer, Factory,
}

find_creator-append :
    (name : Bytes) (xs ys : List (Bytes × Creator)) {c : Creator}
    → find_creator name xs ≡ some c
    → find_creator name (xs ++ ys) ≡ some c
unfolding find_creator
find_creator-append name [] ys e = absurd (ground (arith, e))
find_creator-append name ((k, d) ∷ xs) ys {c} e =
    elim (Bool-cases (holds (bytes_discrete k name))) [
      | inl same ↦ if_true _ _ same ∙ sym (if_true _ _ same) ∙ e
      | inr apart ↦
          if_false _ _ apart ∙ find_creator-append name xs ys (sym (if_false _ _ apart) ∙ e)
    ]

find_creator-new :
    (name : Bytes) (xs : List (Bytes × Creator)) (c : Creator)
    → find_creator name xs ≡ none
    → find_creator name (xs ++ (name, c) ∷ []) ≡ some c
unfolding find_creator
find_creator-new name [] c e = if_true _ _ (same_id-eq name name refl)
find_creator-new name ((k, d) ∷ xs) c e = elim (Bool-cases (holds (bytes_discrete k name))) [
  | inl same ↦ absurd (ground (arith, sym (if_true _ _ same) ∙ e))
  | inr apart ↦ if_false _ _ apart ∙ find_creator-new name xs c (sym (if_false _ _ apart) ∙ e)
]

registered :
    (name : Bytes) (c : Creator) (f : Factory)
    → find_creator name f.registry ≡ none
    → register_serializer name c f ≡ (true, record f { registry = f.registry ++ (name, c) ∷ [] })
unfolding register_serializer add_if_absent
registered name c f e = ap (λ o. add_if_absent o name c f) e

refused :
    (name : Bytes) (c : Creator) (f : Factory) {d : Creator}
    → find_creator name f.registry ≡ some d
    → register_serializer name c f ≡ (false, f)
unfolding register_serializer add_if_absent
refused name c f e = ap (λ o. add_if_absent o name c f) e

kept_by_register :
    (name key : Bytes) (c : Creator) (f : Factory) {d : Creator}
    → find_creator name f.registry ≡ some d
    → find_creator name (register_serializer key c f).1.registry ≡ some d
kept_by_register name key c f {d} e = elim (Option-cases (find_creator key f.registry)) [
  | inl absent ↦
      ap (λ (r : Bool × Factory). find_creator name r.1.registry) (registered key c f absent)
      ∙ find_creator-append name f.registry ((key, c) ∷ []) e
  | inr (x, there) ↦
      ap (λ (r : Bool × Factory). find_creator name r.1.registry) (refused key c f there) ∙ e
]

kept_by_defaults :
    (name : Bytes) (json : Creator) (f : Factory) {d : Creator}
    → find_creator name f.registry ≡ some d
    → find_creator name (init_defaults json f).registry ≡ some d
unfolding init_defaults
kept_by_defaults name json f {d} e = elim (Bool-cases f.defaults_initialized) [
  | inl set ↦ ap (λ (g : Factory). find_creator name g.registry) (if_true _ _ set) ∙ e
  | inr unset ↦
      ap (λ (g : Factory). find_creator name g.registry) (if_false _ _ unset)
      ∙ kept_by_register name json_name json f e
]

-- Registering a name that the registry does not hold succeeds; afterwards create gives what was
-- registered, also under the name of the default serializer, has_serializer finds the name, and
-- every further registration of it is refused and changes nothing.
register_serializer-create :
    (name : Bytes) (c json : Creator) (f : Factory)
    → find_creator name f.registry ≡ none
    → let r = register_serializer name c f in
      (r.0 ≡ true)
      × ((create json name r.1).0 ≡ c)
      × ((has_serializer json name r.1).0 ≡ true)
      × ((d : Creator) → register_serializer name d r.1 ≡ (false, r.1))
unfolding create has_serializer
register_serializer-create name c json f e =
    let r = register_serializer name c f in
    let found : find_creator name r.1.registry ≡ some c =
      ap (λ (q : Bool × Factory). find_creator name q.1.registry) (registered name c f e)
      ∙ find_creator-new name f.registry c e in
    let later = kept_by_defaults name json r.1 found in
    (
      ap (λ (q : Bool × Factory). q.0) (registered name c f e),
      ap (λ (o : Option Creator). get_or o none) later,
      rw (later, has_serializer) refl,
      λ d. refused name d r.1 found,
    )
