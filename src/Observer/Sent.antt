-- ===== src/Observer/Sent.antt =====
-- src/observation/scheduler.ts: what a run sends to the extraction.
use pi_kiwifs_memory.Prelude.{
  ◌≡◌, refl, sym, ap, ◌∙◌, String, true, not, none, some, List, [], ◌∷◌, map, Memᴰ, All, mem-find,
  str_eq, eq_iff, eq_refl, arith, Bool-cases, Option-cases, inl, inr,
}
use pi_kiwifs_memory.Observer.{
  SourceEntryView, PendingBatchRecord, Observer, ObserverOptions, Moment, Flight, member, ids_of,
  find_batch, consume, mark_entries, mark_returns, later_view, view_of, add_view, views_of,
  add_source, redact_all, send, start_views, start_batch, start_next, start_run,
}

-- The entry is the provider's, and is in the batch.
abbrev pub IsBatched : Moment → List String → SourceEntryView → Type 0
IsBatched m ids e = Memᴰ e m.entries × (member e.id ids ≡ true)

-- The source is the id of such an entry and what the redactor makes of its text.
abbrev pub IsRedacted : ObserverOptions → Moment → List String → String × String → Type 0
IsRedacted o m ids source =
    (e : SourceEntryView) × IsBatched m ids e
    × (e.id ≡ source.0)
    × (o.redact e.text ≡ some source.1)

pub record IsSent (o : ObserverOptions) (m : Moment) (s : Observer) (f : Flight) : Type 0 where
  pub batch : PendingBatchRecord
  pub found : find_batch o f.flight_op s.pending ≡ some batch
  pub complete : map (λ x. x.0) f.sources ≡ ids_of (views_of o m.entries batch.entry_ids)
  pub redacted : All (IsRedacted o m batch.entry_ids) f.sources

module _ (o : ObserverOptions) where
  view_of-Mem :
      (id : String) (entries : List SourceEntryView) (e : SourceEntryView)
      → view_of o id entries ≡ some e
      → Memᴰ e entries × (e.id ≡ id)
  unfolding view_of later_view
  view_of-Mem id [] e h = cc h
  view_of-Mem id (x ∷ xs) e h = elim (Option-cases (view_of o id xs)) [
    | inr (v, found) ↦
        let (there, named) = view_of-Mem id xs v found in
        let got : some v ≡ some e = simp found at h in
        let eq : v ≡ e = cc got in simp (sym eq) (Memᴰ.tail there, named)
    | inl last ↦ elim (Bool-cases (str_eq x.id id)) [
      | inr other ↦ let got : none ≡ some e = simp (last, other) at h in cc got
      | inl same ↦
          let got : some x ≡ some e = simp (last, same) at h in
          let eq : x ≡ e = cc got in (Memᴰ.head (sym eq), rw eq at ((eq_iff x.id id).0 same))
    ]
  ]

  views_of-IsBatched :
      (m : Moment) (ids all_ids : List String)
      → ((id : String) → member id ids ≡ true → member id all_ids ≡ true)
      → All (IsBatched m all_ids) (views_of o m.entries ids)
  unfolding views_of add_view member
  views_of-IsBatched m [] all_ids within = tt
  views_of-IsBatched m (id ∷ ids) all_ids within =
      let rest = views_of-IsBatched m ids all_ids (λ i h. within i (ground (arith, h))) in
      elim (Option-cases (view_of o id m.entries)) [
        | inl missing ↦ simp missing rest
        | inr (e, found) ↦
            let (there, eq) = view_of-Mem id m.entries e found in
            simp found ((there, within e.id (simp (eq, eq_refl id) refl)), rest)
      ]

  -- One redacted source in front of others.
  redact_all-cons :
      (e : SourceEntryView) (es : List SourceEntryView) (out : List (String × String))
      → redact_all o (e ∷ es) ≡ some out
      → (content : String) × (more : List (String × String)) × (o.redact e.text ≡ some content)
        × (redact_all o es ≡ some more)
        × (out ≡ (e.id, content) ∷ more)
  unfolding redact_all add_source
  redact_all-cons e es out h = elim (Option-cases (o.redact e.text)) [
    | inl held ↦ cc (simp held at h)
    | inr (content, safe) ↦ elim (Option-cases (redact_all o es)) [
      | inl held ↦ cc (simp (safe, held) at h)
      | inr (more, rest) ↦
          let eq : some ((e.id, content) ∷ more) ≡ some out = simp (safe, rest) at h in
          (content, more, safe, rest, cc eq)
    ]
  ]

  redact_all-ids_of :
      (es : List SourceEntryView) (out : List (String × String))
      → redact_all o es ≡ some out
      → map (λ x. x.0) out ≡ ids_of es
  unfolding redact_all ids_of
  redact_all-ids_of [] [] h = refl
  redact_all-ids_of [] (x ∷ out) h = cc h
  redact_all-ids_of (e ∷ es) out h =
      let (content, more, safe, rest, eq) = redact_all-cons e es out h in
      simp (eq, redact_all-ids_of es more rest) refl

  redact_all-IsRedacted :
      (m : Moment) (ids : List String) (es : List SourceEntryView) (out : List (String × String))
      → All (IsBatched m ids) es
      → redact_all o es ≡ some out
      → All (IsRedacted o m ids) out
  unfolding redact_all
  redact_all-IsRedacted m ids [] [] batched h = tt
  redact_all-IsRedacted m ids [] (x ∷ out) batched h = cc h
  redact_all-IsRedacted m ids (e ∷ es) out (here, others) h =
      let (content, more, safe, rest, eq) = redact_all-cons e es out h in
      simp eq ((e, here, refl, safe), redact_all-IsRedacted m ids es more others rest)

  flight-consume :
      (m : Moment) (b : PendingBatchRecord) (s : Observer) → (consume o m b s).flight ≡ s.flight
  unfolding consume mark_entries
  flight-consume m b s = elim (Bool-cases (mark_returns o m b.entry_ids s)) [
    | inl saved ↦ simp saved refl
    | inr lost ↦ simp lost refl
  ]

  start_views-IsSent :
      (m : Moment) (s : Observer) (b : PendingBatchRecord) (es : List SourceEntryView) (f : Flight)
      → s.flight ≡ none
      → (start_views o b es m s).flight ≡ some f
      → (f.flight_op ≡ b.op_id) × (redact_all o es ≡ some f.sources)
  unfolding start_views send
  start_views-IsSent m s b [] f quiet h = cc (quiet, flight-consume m b s, h)
  start_views-IsSent m s b (e ∷ es) f quiet h = elim (Bool-cases (not o.has_extractor)) [
    | inl off ↦ let same : s.flight ≡ some f = simp off at h in cc (quiet, same)
    | inr on ↦ elim (Option-cases (redact_all o (e ∷ es))) [
      | inl held ↦ let same : s.flight ≡ some f = simp (on, held) at h in cc (quiet, same)
      | inr (sources, safe) ↦
          let out : Flight = record {
            flight_op = b.op_id;
            sources = sources;
            started_in = s.generation;
          } in
          let sent : some out ≡ some f = simp (on, safe) at h in
          let eq : out ≡ f = cc sent in
          (sym (ap (λ x. x.flight_op) eq), safe ∙ ap (λ x. some x.sources) eq)
    ]
  ]

  start_batch-IsSent :
      (m : Moment) (s : Observer) (op : String) (f : Flight)
      → s.flight ≡ none
      → (start_batch o (find_batch o op s.pending) m s).flight ≡ some f
      → IsSent o m s f
  unfolding start_batch find_batch
  start_batch-IsSent m s op f quiet h = elim (Option-cases (find_batch o op s.pending)) [
    | inl gone ↦ let same : s.flight ≡ some f = simp gone at h in cc (quiet, same)
    | inr (b, found) ↦
        let views = views_of o m.entries b.entry_ids in
        let (named, safe) = start_views-IsSent m s b views f quiet (simp found at h) in
        let eq = (eq_iff b.op_id op).0 (mem-find (λ x. str_eq x.op_id op) s.pending found).1 in
        record {
          batch = b;
          found = simp (named ∙ eq) found;
          complete = redact_all-ids_of views f.sources safe;
          redacted =
              redact_all-IsRedacted m b.entry_ids views f.sources
                (views_of-IsBatched m b.entry_ids b.entry_ids (λ id k. k)) safe;
        }
  ]

  start_next-IsSent :
      (m : Moment) (s : Observer) (ops : List String) (f : Flight)
      → s.flight ≡ none
      → (start_next o ops m s).flight ≡ some f
      → IsSent o m s f
  unfolding start_next
  start_next-IsSent m s [] f quiet h = cc (quiet, h)
  start_next-IsSent m s (op ∷ ops) f quiet h =
      let sent = start_batch-IsSent m (record s { queue = ops }) op f quiet h in
      record {
        batch = sent.batch;
        found = sent.found;
        complete = sent.complete;
        redacted = sent.redacted;
      }

-- When no run is in flight and the start of the next one sends something, that is for a pending
-- batch, and has, in the order of the batch, the entries that the provider still has, each with its
-- text as the redactor returned it.
pub start_run-IsSent :
    (o : ObserverOptions) (m : Moment) (s : Observer) (f : Flight)
    → s.flight ≡ none
    → (start_run o m s).flight ≡ some f
    → IsSent o m s f
unfolding start_run
start_run-IsSent o m s f quiet h =
    let next : (start_next o s.queue m s).flight ≡ some f = simp quiet at h in
    start_next-IsSent o m s s.queue f quiet next
