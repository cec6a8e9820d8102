-- ===== src/Encounters/Phases/Update.antt =====
-- Looking an encounter up behind an update of one.
use stonemite.Encounters.{EncounterState, CombatEngine, update_encounter}
use stonemite.Base.Dict.{lookup, insert, lookup-insert}
use stonemite.Base.{
  ℕ, ◌≡◌, refl, ap, inl, inr, Bool, true, false, Option, none, some, List, arith, ℕ_discrete, subst,
  ==_refl, ==_ne, Option-cases, ◌==◌,
}
use stonemite.Encounters.Phases.{applied}

pub applied-none :
    (id k : ℕ) (f : EncounterState → EncounterState) (encounters : List (ℕ × EncounterState))
    → lookup id encounters ≡ none
    → lookup k encounters ≡ applied (id == k) f (lookup k encounters)
applied-none id k f encounters h = elim (ℕ_discrete id k) [
  | yes same ↦
      let at_k : lookup k encounters ≡ none = subst (λ i. lookup i encounters ≡ none) same h in
      rw (at_k, same, ==_refl k) refl
  | no other ↦ rw (==_ne id k other) refl
]

pub lookup-insert-applied :
    (id k : ℕ) (f : EncounterState → EncounterState) (encounters : List (ℕ × EncounterState))
    (e next : EncounterState)
    → lookup id encounters ≡ some e
    → next ≡ f e
    → lookup k (insert id next encounters) ≡ applied (id == k) f (lookup k encounters)
lookup-insert-applied id k f encounters e next h is_next = elim (ℕ_discrete id k) [
  | yes same ↦
      let at_k : lookup k encounters ≡ some e = subst (λ i. lookup i encounters ≡ some e) same h in
      rw (lookup-insert id k next encounters, at_k, same, ==_refl k, is_next) refl
  | no other ↦ rw (lookup-insert id k next encounters, ==_ne id k other) refl
]

pub applied_same :
    (id k : ℕ) (f : EncounterState → EncounterState) (encounters : List (ℕ × EncounterState))
    (e : EncounterState)
    → lookup id encounters ≡ some e
    → f e ≡ e
    → lookup k encounters ≡ applied (id == k) f (lookup k encounters)
applied_same id k f encounters e h same_e = elim (ℕ_discrete id k) [
  | yes same ↦
      let at_k : lookup k encounters ≡ some e = subst (λ i. lookup i encounters ≡ some e) same h in
      rw (at_k, same, ==_refl k, same_e) refl
  | no other ↦ rw (==_ne id k other) refl
]

pub update_unknown :
    (c : CombatEngine) (id : ℕ) (f : EncounterState → EncounterState)
    → lookup id c.encounters ≡ none
    → update_encounter c id f ≡ c
unfolding update_encounter
update_unknown c id f h = rw (update_encounter, h) refl

pub update_known :
    (c : CombatEngine) (id : ℕ) (f : EncounterState → EncounterState) (e : EncounterState)
    → lookup id c.encounters ≡ some e
    → update_encounter c id f ≡ record c { encounters = insert id (f e) c.encounters }
unfolding update_encounter
update_known c id f e h = rw (update_encounter, h) refl

pub lookup-update_encounter :
    (c : CombatEngine) (id k : ℕ) (f : EncounterState → EncounterState)
    → lookup k (update_encounter c id f).encounters ≡ applied (id == k) f (lookup k c.encounters)
lookup-update_encounter c id k f = elim (Option-cases (lookup id c.encounters)) [
  | inl h ↦ rw (update_unknown c id f h) (applied-none id k f c.encounters h)
  | inr (e, h) ↦
      rw (update_known c id f e h) (lookup-insert-applied id k f c.encounters e (f e) h refl)
]

pub update_encounter_rest :
    (c : CombatEngine) (id : ℕ) (f : EncounterState → EncounterState)
    → ((update_encounter c id f).policy ≡ c.policy)
      × (((update_encounter c id f).log_engine ≡ c.log_engine)
          × ((update_encounter c id f).source_active ≡ c.source_active))
unfolding update_encounter
update_encounter_rest c id f = ground arith

pub applied_agree :
    (id k : ℕ) (f g : EncounterState → EncounterState) (encounters : List (ℕ × EncounterState))
    (e : EncounterState)
    → lookup id encounters ≡ some e
    → f e ≡ g e
    → applied (id == k) f (lookup k encounters) ≡ applied (id == k) g (lookup k encounters)
applied_agree id k f g encounters e h agree = elim (ℕ_discrete id k) [
  | yes same ↦
      let at_k : lookup k encounters ≡ some e = subst (λ i. lookup i encounters ≡ some e) same h in
      rw (at_k, same, ==_refl k) (ap some agree)
  | no other ↦ rw (==_ne id k other) refl
]

pub applied_twice :
    (b : Bool) (f g : EncounterState → EncounterState) (o : Option EncounterState)
    → applied b g (applied b f o) ≡ applied b (λ e. g (f e)) o
applied_twice true f g none = refl
applied_twice true f g (some e) = refl
applied_twice false f g o = refl
