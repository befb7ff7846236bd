-- ===== src/Alerts/Quality/Policy.antt =====
-- The notification policy: what `decide` of src/PcPulse.Service/src/quality.rs answers, and how
-- its answer moves with the severity, the scores, the learning period and the user's offset.
use pc_pulse.Prelude.{
  ℕ, ◌*◌, ◌^◌, ◌≤◌, ◌<◌, ◌≡◌, ◌↔◌, ◌⊎◌, Bool, true, false, ◌&&◌, Option, none, some, arith,
}
use pc_pulse.Float.{Float, IsOrdered}
use pc_pulse.Alerts.Model.{Severity, info, warning, critical, AlertQuality, Alert}
use pc_pulse.Alerts.Quality.{rank, severity_ok, confidence_floor, persistence_floor, decide}

module _ {F : Type 0} ⦃f : Float F⦄ where
  -- Both scores reach their floors, moved by the offset.
  abbrev pub Reaches : AlertQuality F → F → F → F → Type 0
  Reaches quality persistence confidence offset =
      (f.le (f.add persistence offset) quality.persistence ≡ true)
      × (f.le (f.add confidence offset) quality.confidence ≡ true)

  -- What the policy asks of an incident of each severity.
  abbrev pub Deserves : Severity → Bool → AlertQuality F → F → Type 0
  Deserves info learning quality offset = ⊥
  Deserves warning true quality offset = ⊥
  Deserves warning false quality offset = Reaches quality (f.literal 5 1) (f.literal 5 1) offset
  Deserves critical true quality offset = Reaches quality (f.literal 5 1) (f.literal 6 1) offset
  Deserves critical false quality offset = Reaches quality (f.literal 5 1) (f.literal 35 2) offset

  severity-Deserves :
      (severity : Severity) (learning : Bool) (quality : AlertQuality F) (offset : F)
      → ((severity_ok severity learning
            && (f.le (f.add persistence_floor offset) quality.persistence
                && f.le (f.add (confidence_floor severity learning) offset) quality.confidence))
          ≡ true)
        ↔ Deserves severity learning quality offset
  severity-Deserves info learning quality offset = ground arith
  severity-Deserves warning true quality offset = ground arith
  severity-Deserves warning false quality offset = ground arith
  severity-Deserves critical true quality offset = ground arith
  severity-Deserves critical false quality offset = ground arith

  -- An incident notifies exactly when its severity and its scores deserve it: never as
  -- informational; as a warning only out of the learning period, with persistence and confidence at
  -- 0.5 or above; as critical with persistence at 0.5 and confidence at 0.35, or 0.6 while learning.
  -- The user's offset is added to every floor.
  pub decide-notify :
      (alert : Alert F) (quality : AlertQuality F) (learning : Bool) (previous : Option (Alert F))
      (material_change : Bool) (offset : F)
      → ((decide alert quality learning previous material_change offset).notify ≡ true)
        ↔ Deserves alert.severity learning quality offset
  unfolding decide
  decide-notify alert quality learning previous material_change offset =
      severity-Deserves alert.severity learning quality offset

  -- The incident notified before, and is worse or materially different now.
  abbrev pub Renews : Alert F → Option (Alert F) → Bool → Type 0
  Renews alert none material_change = ⊥
  Renews alert (some previous) material_change =
      (previous.notify ≡ true)
      × ((rank previous.severity < rank alert.severity) ⊎ (material_change ≡ true))

  -- The generation is bumped exactly when the incident notifies now, notified before, and is either
  -- more severe than before or materially different.
  pub decide-bump_generation :
      (alert : Alert F) (quality : AlertQuality F) (learning : Bool) (previous : Option (Alert F))
      (material_change : Bool) (offset : F)
      → ((decide alert quality learning previous material_change offset).bump_generation ≡ true)
        ↔ (Deserves alert.severity learning quality offset × Renews alert previous material_change)
  unfolding decide
  decide-bump_generation alert quality learning none material_change offset =
      ground (arith, severity-Deserves alert.severity learning quality offset)
  decide-bump_generation alert quality learning (some previous) material_change offset =
      ground (arith, severity-Deserves alert.severity learning quality offset)

  module _ (laws : IsOrdered f) where
    Reaches-mono :
        (q r : AlertQuality F) (n k m j : ℕ) (x y : F)
        → m * 10 ^ k ≤ n * 10 ^ j
        → f.le y x ≡ true
        → f.le q.persistence r.persistence ≡ true
        → f.le q.confidence r.confidence ≡ true
        → Reaches q (f.literal 5 1) (f.literal n k) x
        → Reaches r (f.literal 5 1) (f.literal m j) y
    Reaches-mono q r n k m j x y h o hp hc reached = (
      laws.le_trans _ _ _
          (laws.le_trans _ _ _ (laws.literal_add_le 5 1 5 1 y x (omega arith) o) reached.0) hp,
      laws.le_trans _ _ _ (laws.le_trans _ _ _ (laws.literal_add_le m j n k y x h o) reached.1) hc,
    )

    Deserves-mono :
        (s t : Severity) (learning : Bool) (q r : AlertQuality F) (x y : F)
        → rank s ≤ rank t
        → f.le y x ≡ true
        → f.le q.persistence r.persistence ≡ true
        → f.le q.confidence r.confidence ≡ true
        → Deserves s learning q x
        → Deserves t learning r y
    unfolding rank
    Deserves-mono info t learning q r x y h o hp hc d = absurd d
    Deserves-mono warning t true q r x y h o hp hc d = absurd d
    Deserves-mono warning info false q r x y h o hp hc d = absurd (omega arith)
    Deserves-mono warning warning false q r x y h o hp hc d =
        Reaches-mono q r 5 1 5 1 x y (omega arith) o hp hc d
    Deserves-mono warning critical false q r x y h o hp hc d =
        Reaches-mono q r 5 1 35 2 x y (omega arith) o hp hc d
    Deserves-mono critical info learning q r x y h o hp hc d = absurd (omega arith)
    Deserves-mono critical warning learning q r x y h o hp hc d = absurd (omega arith)
    Deserves-mono critical critical true q r x y h o hp hc d =
        Reaches-mono q r 6 1 6 1 x y (omega arith) o hp hc d
    Deserves-mono critical critical false q r x y h o hp hc d =
        Reaches-mono q r 35 2 35 2 x y (omega arith) o hp hc d

    lowered :
        (n k : ℕ) (x y z : F)
        → f.le y x ≡ true
        → f.le (f.add (f.literal n k) x) z ≡ true
        → f.le (f.add (f.literal n k) y) z ≡ true
    lowered n k x y z o h = laws.le_trans _ _ _ (laws.literal_add_le n k n k y x (omega arith) o) h

    -- What is deserved with an offset is deserved with a lower one.
    pub Deserves-lower :
        (s : Severity) (learning : Bool) (q : AlertQuality F) (x y : F)
        → f.le y x ≡ true
        → Deserves s learning q x
        → Deserves s learning q y
    Deserves-lower info learning q x y o d = d
    Deserves-lower warning true q x y o d = d
    Deserves-lower warning false q x y o d = (lowered 5 1 x y _ o d.0, lowered 5 1 x y _ o d.1)
    Deserves-lower critical true q x y o d = (lowered 5 1 x y _ o d.0, lowered 6 1 x y _ o d.1)
    Deserves-lower critical false q x y o d = (lowered 5 1 x y _ o d.0, lowered 35 2 x y _ o d.1)

    -- An incident that notifies still notifies when it is as severe or more, its persistence and
    -- its confidence are as high or higher, and the offset is as low or lower, under the same
    -- learning flag and whatever went before.
    decide_mono :
        (alert worse : Alert F) (q r : AlertQuality F) (learning : Bool)
        (previous other : Option (Alert F)) (material_change renewed : Bool) (x y : F)
        → rank alert.severity ≤ rank worse.severity
        → f.le y x ≡ true
        → f.le q.persistence r.persistence ≡ true
        → f.le q.confidence r.confidence ≡ true
        → (decide alert q learning previous material_change x).notify ≡ true
        → (decide worse r learning other renewed y).notify ≡ true
    decide_mono alert worse q r learning previous other material_change renewed x y h o hp hc n =
        (decide-notify worse r learning other renewed y).1 (
          Deserves-mono alert.severity worse.severity learning q r x y h o hp hc
            ((decide-notify alert q learning previous material_change x).0 n))
