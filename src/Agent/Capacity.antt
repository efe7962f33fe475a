-- ===== src/Agent/Capacity.antt =====
-- What validation (src/config/mod.rs) gives the agent of src/main.rs.
use blazebee.Base.{
  ◌+◌, ◌≤◌, ◌≡◌, refl, ap, Bool, true, false, some, Option-cases, List, [], ◌∷◌, map, length,
  length-map, ok, suc, arith, All, is_some, Bool-cases, inl, inr,
}
use blazebee.Base.Text.{Text, text_eq, text_eq→eq}
use blazebee.Config.{EndpointMetadata}
use blazebee.Collectors.Registry.{Kind, Descriptor, find, find_in, registry}
use blazebee.Settings.{CollectorConfig, Settings, Filters, validate}
use blazebee.Settings.Valid.{validate-IsSettings}
use blazebee.Serializer.{Codecs}
use blazebee.Publisher.{Client, Publisher}
use blazebee.Publisher
use blazebee.Publisher.Room.{Room}
use blazebee.Scheduler.{Collect, Line, entries_of, cycle}
use blazebee.Scheduler.Capacity.{mqtt, overflowed, cycle-fits}
use blazebee.Agent.{entry_of, entries_for}

-- A descriptor is found under its own name.
find_in_name :
    (ds : List Descriptor) (name : Text) (d : Descriptor) → find_in ds name ≡ some d → d.name ≡ name
unfolding find_in
find_in_name [] name d h = cc
find_in_name (x ∷ ds) name d h = elim (Bool-cases (text_eq x.name name)) [
  | inl e ↦ cc (rw (find_in, e) at h, text_eq→eq x.name name e)
  | inr e ↦ find_in_name ds name d (rw (find_in, e) at h)
]

find_name :
    (built : Text → Bool) (name : Text) (d : Descriptor) → find built name ≡ some d → d.name ≡ name
unfolding find
find_name built name d h = find_in_name (registry built) name d h

module _ (built : Text → Bool) {Collector : Type 0} (make : Kind → Collector) where
  -- The entries are those of the configuration, under their own names, in order.
  pub record IsStart (es : List CollectorConfig)
      (started : List (Text × Collector × EndpointMetadata)) : Type 0 where
    pub names : map (λ e. e.0) started ≡ map (λ (e : CollectorConfig). e.name) es
    pub metas : map (λ e. e.2) started ≡ map (λ (e : CollectorConfig). e.metadata) es

  -- Where every name is known, no `expect` fails.
  pub entries_for_lem :
      (es : List CollectorConfig)
      → All (λ (e : CollectorConfig). is_some (find built e.name) ≡ true) es
      → (started : List (Text × Collector × EndpointMetadata)) × (entries_for built make es
          ≡ some started)
        × IsStart es started
  unfolding entries_for entry_of
  entries_for_lem [] h = ([], refl, record { names = refl; metas = refl })
  entries_for_lem (e ∷ es) h = elim (Option-cases (find built e.name)) [
    | inl missing ↦ cc (rw missing at h.0)
    | inr (d, found) ↦
        let (rest, made, start) = entries_for_lem es h.1 in
        let name = find_name built e.name d found in
        (
          (d.name, make d.build, e.metadata) ∷ rest,
          rw (entries_for, entry_of, found, made) refl,
          record { names = rw (name, start.names); metas = rw start.metas },
        )
  ]

length-entries_of :
    {C : Type 0} (started : List (Text × C × EndpointMetadata))
    → length (entries_of started) ≡ length started
unfolding entries_of
length-entries_of [] = refl
length-entries_of (e ∷ es) = ap suc (length-entries_of es)

module _ (codecs : Codecs) (client : Client) (free : Room client) (c : Collect codecs.Value) where
  -- A validated configuration starts every collector that it names; without framing, a cycle on a queue that has
  -- all its places free, or all but the one of the status message, loses no sample for want of room.
  pub agent_fits :
      (filters : Filters) (is_file built : Text → Bool) (make : Kind → c.Collector) (s : Settings)
      (q : client.Queue)
      → validate filters is_file built s ≡ ok tt
      → s.transport.framing.enabled ≡ false
      → s.transport.request_channel_capacity ≤ free.room q + 1
      → (started : List (Text × c.Collector × EndpointMetadata)) × (entries_for built make
            s.metrics.collectors.enabled
          ≡ some started)
        × IsStart built make s.metrics.collectors.enabled started
        × All
            (λ (l : Line). overflowed l ≡ false)
            (cycle (mqtt codecs client) c (Publisher.new q s.transport) (entries_of started)).lines
  agent_fits filters is_file built make s q valid off empty =
      let v = validate-IsSettings filters is_file built s valid in
      let (started, made, start) =
        entries_for_lem built make s.metrics.collectors.enabled v.known in
      (
        started,
        made,
        start,
        cycle-fits codecs client free c (Publisher.new q s.transport) (entries_of started) off (
            omega (
              arith,
              v.capacity,
              length-entries_of started,
              ap length start.names,
              length-map started (λ e. e.0),
              length-map s.metrics.collectors.enabled (λ e. e.name),
            )),
      )
