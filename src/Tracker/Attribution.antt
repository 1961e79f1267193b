-- ===== src/Tracker/Attribution.antt =====
-- Which records are charged to an object: those whose correlation id was last reported for it.
use backend_radius_ai.Prelude.{
  ℕ, ◌≡◌, refl, ap, ◌∙◌, true, false, none, some, List, [], ◌∷◌, ◌==◌, if◌then◌else◌, Bool-cases,
  Option-cases, inl, inr, arith,
}
use backend_radius_ai.Machine.{null}
use backend_radius_ai.Tracker.Usage.{MemoryUsage}
use backend_radius_ai.Tracker.Activity.{
  MemoryRecord, Activity, memory, external_correlation, runtime, unexpected, Tracker, find, erase,
  charge_record, store, track_memory, track_activity, track_all,
}

-- The charges of an activity, and the map behind it, from the map alone.
abbrev pub attribute : Activity → List (ℕ × ℕ) → List (ℕ × MemoryRecord) × List (ℕ × ℕ)
attribute (memory r) entries = elim (find r.correlation_id entries) [
  | none ↦ ([], entries)
  | some p ↦ ((if p == null then [] else (p, r) ∷ []), erase r.correlation_id entries)
]
attribute (external_correlation is_unknown k v) entries =
    ([], (if is_unknown then (k, v) ∷ erase k entries else entries))
attribute runtime entries = ([], entries)
attribute unexpected entries = ([], entries)

-- The records of the object at `p`, over a row of activities.
abbrev pub charged_to : ℕ → List (ℕ × MemoryRecord) → List MemoryRecord → List MemoryRecord
charged_to p [] rest = rest
charged_to p ((q, r) ∷ charges) rest =
    let more = charged_to p charges rest in if q == p then r ∷ more else more

abbrev pub records_of : ℕ → List Activity → List (ℕ × ℕ) → List MemoryRecord
records_of p [] entries = []
records_of p (a ∷ activities) entries =
    charged_to p (attribute a entries).0 (records_of p activities (attribute a entries).1)

abbrev pub charge_all : List MemoryRecord → MemoryUsage → MemoryUsage
charge_all [] usage = usage
charge_all (r ∷ rs) usage = charge_all rs (charge_record r usage)

track_memory-none :
    (r : MemoryRecord) (t : Tracker)
    → find r.correlation_id t.activity_to_memory_usage ≡ none
    → track_memory r t ≡ t
unfolding track_memory
track_memory-none r t e = rw (e, track_memory)

track_memory-some :
    (r : MemoryRecord) (t : Tracker) (q : ℕ)
    → find r.correlation_id t.activity_to_memory_usage ≡ some q
    → track_memory r t ≡ record {
      activity_to_memory_usage = erase r.correlation_id t.activity_to_memory_usage;
      usages = if q == null then t.usages else store q (charge_record r (t.usages q)) t.usages;
    }
unfolding track_memory
track_memory-some r t q e = rw (e, track_memory)

-- One activity does what the map says.
track_activity-attribute :
    (p : ℕ) (a : Activity) (t : Tracker) (rest : List MemoryRecord)
    → ((track_activity a t).activity_to_memory_usage ≡ (attribute a t.activity_to_memory_usage).1)
      × (charge_all rest ((track_activity a t).usages p)
          ≡ charge_all (charged_to p (attribute a t.activity_to_memory_usage).0 rest) (t.usages p))
unfolding track_activity store
track_activity-attribute p runtime t rest = (refl, refl)
track_activity-attribute p unexpected t rest = (refl, refl)
track_activity-attribute p (external_correlation true k v) t rest = (refl, refl)
track_activity-attribute p (external_correlation false k v) t rest = (refl, refl)
track_activity-attribute p (memory r) t rest =
    elim (Option-cases (find r.correlation_id t.activity_to_memory_usage)) [
      | inl none_found ↦ rw (track_memory-none r t none_found, none_found, attribute) (refl, refl)
      | inr (q, found) ↦
          let tracked = track_memory-some r t q found in
          elim (Bool-cases (q == null)) [
            | inl is_null ↦ rw (tracked, found, is_null, attribute) (refl, refl)
            | inr given ↦ elim (Bool-cases (q == p)) [
              | inl here ↦
                  let same : q ≡ p = ground arith in
                  rw (tracked, found, given, attribute) (rw (here, ← same) (refl, refl))
              | inr other ↦ rw (tracked, found, given, attribute) (rw other (refl, refl))
            ]
          ]
    ]

-- The object at `p` after a row of activities is as it was, with the records charged to it that
-- the map attributes to it, in their order; the records of other objects, however they interleave,
-- do not touch it.
pub track_all-records_of :
    (p : ℕ) (activities : List Activity) (t : Tracker)
    → (track_all activities t).usages p
      ≡ charge_all (records_of p activities t.activity_to_memory_usage) (t.usages p)
unfolding track_all
track_all-records_of p [] t = refl
track_all-records_of p (a ∷ activities) t =
    let t' = track_activity a t in
    let entries = (attribute a t.activity_to_memory_usage).1 in
    let step = track_activity-attribute p a t (records_of p activities entries) in
    track_all-records_of p activities t'
    ∙ ap (λ e. charge_all (records_of p activities e) (t'.usages p)) step.0
    ∙ step.1
