-- ===== src/Alerts/Engine/Maps.antt =====
-- What the map operations of the incident engine leave under a key.
use pc_pulse.Prelude.{◌≡◌, refl, Bool, Option, none, some, [], ◌∷◌, arith, if◌then◌else◌}
use pc_pulse.Text.{Text, text_eq, text_eq_iff, is_some}
use pc_pulse.Table.{Table, map_some, lookup, text_Eq, Distinct}
use pc_pulse.Alerts.Offsets.{or_default}
use pc_pulse.Alerts.Engine.{retain, contains_key, upsert}
use pc_pulse.Alerts.Engine.Scoring.{map_values}

module _ {V : Type 0} where
  abbrev pub kept : (V → Bool) → Option V → Option V
  kept keep none = none
  kept keep (some v) = if keep v then some v else none

  pub lookup-retain :
      (keep : Text → V → Bool) (key : Text) (t : Table Text V)
      → Distinct t
      → lookup key (retain keep t) ≡ kept (keep key) (lookup key t)
  unfolding lookup retain
  lookup-retain keep key [] d = refl
  lookup-retain keep key ((k, v) ∷ t) d =
      ground (arith, text_eq_iff k key, lookup-retain keep key t d.1)

  pub retain-Distinct :
      (keep : Text → V → Bool) (t : Table Text V) → Distinct t → Distinct (retain keep t)
  unfolding retain
  retain-Distinct keep [] d = tt
  retain-Distinct keep ((k, v) ∷ t) d =
      ground (arith, lookup-retain keep k t d.1, retain-Distinct keep t d.1)

  pub lookup-upsert :
      (key k : Text) (default : V) (g : V → V) (t : Table Text V)
      → lookup k (upsert key default g t)
        ≡ (if text_eq key k then some (g (or_default default (lookup key t))) else lookup k t)
  unfolding lookup upsert
  lookup-upsert key k default g [] = refl
  lookup-upsert key k default g ((j, v) ∷ t) = ground (
    arith,
    text_eq_iff key k,
    text_eq_iff j key,
    text_eq_iff j k,
    lookup-upsert key k default g t,
  )

  pub contains_key-is_some :
      (key : Text) (t : Table Text V) → contains_key key t ≡ is_some (lookup key t)
  unfolding lookup
  contains_key-is_some key [] = refl
  contains_key-is_some key ((k, v) ∷ t) = ground (arith, contains_key-is_some key t)

  pub lookup-map_values :
      (g : V → V) (key : Text) (t : Table Text V)
      → lookup key (map_values g t) ≡ map_some g (lookup key t)
  unfolding lookup map_values
  lookup-map_values g key [] = refl
  lookup-map_values g key ((k, v) ∷ t) = ground (arith, lookup-map_values g key t)
