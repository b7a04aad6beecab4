-- ===== src/Runbooks/Streams/Arguments.antt =====
-- What the command streams does with its arguments.
use service_mesh_nats_go.Prelude.{
  ℕ, ◌≤◌, ◌<◌, String, Bool, true, false, ◌||◌, ◌≡◌, ◌≢◌, ◌⊎◌, ◌↔◌, inl, inr, refl, sym, List, [],
  ◌∷◌, Option, none, some, Bool-cases, ◌==◌, eq_iff, if◌then◌else◌, arith, length,
}
use mathlib.Core.Path.{subst}
use service_mesh_nats_go.Errors.{Error, Result, ok, err}
use service_mesh_nats_go.Runbooks.Streams.{
  StreamConfig, StreamInfo, ConsumerInfo, ConsumerConfig, Retention, JetStream, usage, out_of_range,
  Run, ends, stream_config, explicit_config, created_run, add_stream, looked_up, info_run, list_run,
  made_run, add_consumer, deleted_run, run_verb,
}

-- The words that follow the stream's name: how many a verb needs.
abbrev pub needed : String → ℕ
needed verb = if verb == "add" then 1 else if verb == "add-consumer" then 2 else 0

abbrev pub is_verb : String → Bool
is_verb verb =
    verb == "add" || verb == "info" || verb == "consumers" || verb == "add-consumer" || verb == "rm"

-- A command that has its arguments.
abbrev RunsThrough : Run → Type 0
RunsThrough run = (run.ended ≢ out_of_range) × (run.ended ≢ usage)

created_run-RunsThrough :
    (cfg : StreamConfig) (r : Result (String × Retention)) → RunsThrough (created_run cfg r)
created_run-RunsThrough cfg (err e) = (λ h. cc, λ h. cc)
created_run-RunsThrough cfg (ok (name, retention)) = (λ h. cc, λ h. cc)

info_run-RunsThrough : (name : String) (r : Result StreamInfo) → RunsThrough (info_run name r)
info_run-RunsThrough name (err e) = (λ h. cc, λ h. cc)
info_run-RunsThrough name (ok i) = (λ h. cc, λ h. cc)

list_run-RunsThrough :
    (name : String) (r : List ConsumerInfo × Option Error) → RunsThrough (list_run name r)
list_run-RunsThrough name (infos, none) = (λ h. cc, λ h. cc)
list_run-RunsThrough name (infos, some e) = (λ h. cc, λ h. cc)

made_run-RunsThrough :
    (stream : String) (cfg : ConsumerConfig) (r : Result String)
    → RunsThrough (made_run stream cfg r)
made_run-RunsThrough stream cfg (err e) = (λ h. cc, λ h. cc)
made_run-RunsThrough stream cfg (ok name) = (λ h. cc, λ h. cc)

deleted_run-RunsThrough : (name : String) (o : Option Error) → RunsThrough (deleted_run name o)
deleted_run-RunsThrough name none = (λ h. cc, λ h. cc)
deleted_run-RunsThrough name (some e) = (λ h. cc, λ h. cc)

looked_up-RunsThrough :
    (verb name : String) (o : Option Error) (rest : Run)
    → RunsThrough rest
    → RunsThrough (looked_up verb name o rest)
looked_up-RunsThrough verb name none rest t = t
looked_up-RunsThrough verb name (some e) rest t = (λ h. cc, λ h. cc)

-- How a command ends, by its verb and the number of its arguments. What does not run through asks
-- the server for nothing.
pub record Obeys (verb : String) (more : List String) (run : Run) : Type 0 where
  pub panics : (run.ended ≡ out_of_range) ↔ (length more < needed verb)
  pub unknown : (run.ended ≡ usage) ↔ (is_verb verb ≡ false)
  pub silent : (run.ended ≡ out_of_range) ⊎ (run.ended ≡ usage) → run.requests ≡ []

Obeys-RunsThrough :
    (verb : String) (more : List String) (run : Run)
    → RunsThrough run
    → needed verb ≤ length more
    → is_verb verb ≡ true
    → Obeys verb more run
Obeys-RunsThrough verb more run (p, u) n k = record {
  panics = (λ h. absurd (p h), λ h. absurd (omega (arith)));
  unknown = (λ h. absurd (u h), λ h. cc);
  silent = λ h. absurd (neither h);
}
  where
    neither : (run.ended ≡ out_of_range) ⊎ (run.ended ≡ usage) → ⊥
    neither (inl h) = p h
    neither (inr h) = u h

Obeys-out_of_range :
    (verb : String) (more : List String)
    → length more < needed verb
    → is_verb verb ≡ true
    → Obeys verb more (ends out_of_range)
Obeys-out_of_range verb more n k = record {
  panics = (λ h. n, λ h. refl);
  unknown = (λ h. cc, λ h. cc);
  silent = λ h. refl;
}

Obeys-usage :
    (verb : String) (more : List String)
    → needed verb ≡ 0
    → is_verb verb ≡ false
    → Obeys verb more (ends usage)
Obeys-usage verb more n k = record {
  panics = (λ h. cc, λ h. absurd (omega arith));
  unknown = (λ h. k, λ h. refl);
  silent = λ h. refl;
}

add_stream-Obeys :
    (js : JetStream) (name : String) (more : List String)
    → Obeys "add" more (add_stream js name more)
unfolding add_stream
add_stream-Obeys js name [] = Obeys-out_of_range "add" [] (omega arith) refl
add_stream-Obeys js name (subject ∷ more) =
    let cfg = stream_config name subject more in
    Obeys-RunsThrough "add" (subject ∷ more) _ (created_run-RunsThrough cfg (js.created cfg))
      (omega arith) refl

add_consumer-Obeys :
    (js : JetStream) (stream : String) (more : List String)
    → Obeys "add-consumer" more (add_consumer js stream more)
unfolding add_consumer
add_consumer-Obeys js stream (name ∷ subject ∷ more) =
    let cfg = explicit_config name subject in
    Obeys-RunsThrough "add-consumer" (name ∷ subject ∷ more) _
      (made_run-RunsThrough stream cfg (js.made stream cfg)) (omega arith) refl
add_consumer-Obeys js stream (name ∷ []) =
    Obeys-out_of_range "add-consumer" (name ∷ []) (omega arith) refl
add_consumer-Obeys js stream [] = Obeys-out_of_range "add-consumer" [] (omega arith) refl

-- The verbs.
data Chosen (verb : String) : Type 0 where
  is_add : verb ≡ "add" → Chosen verb
  is_info : verb ≡ "info" → Chosen verb
  is_consumers : verb ≡ "consumers" → Chosen verb
  is_add_consumer : verb ≡ "add-consumer" → Chosen verb
  is_rm : verb ≡ "rm" → Chosen verb
  no_verb :
      (verb == "add") ≡ false
      → (verb == "info") ≡ false
      → (verb == "consumers") ≡ false
      → (verb == "add-consumer") ≡ false
      → (verb == "rm") ≡ false
      → Chosen verb

by_tests : (verb : String) → Chosen verb
by_tests verb = elim (Bool-cases (verb == "add")) [
  | inl h ↦ is_add ((eq_iff verb "add").0 h)
  | inr a ↦ elim (Bool-cases (verb == "info")) [
    | inl h ↦ is_info ((eq_iff verb "info").0 h)
    | inr b ↦ elim (Bool-cases (verb == "consumers")) [
      | inl h ↦ is_consumers ((eq_iff verb "consumers").0 h)
      | inr c ↦ elim (Bool-cases (verb == "add-consumer")) [
        | inl h ↦ is_add_consumer ((eq_iff verb "add-consumer").0 h)
        | inr d ↦ elim (Bool-cases (verb == "rm")) [
          | inl h ↦ is_rm ((eq_iff verb "rm").0 h)
          | inr e ↦ no_verb a b c d e
        ]
      ]
    ]
  ]
]

-- Once connected, the command panics exactly when a known verb lacks an argument that it indexes:
-- the subject of add, or the name or the subject of add-consumer. It prints the usage exactly for a
-- verb that is unknown. In both cases it asks the server for nothing.
pub run_verb-Obeys :
    (js : JetStream) (verb name : String) (more : List String)
    → Obeys verb more (run_verb js verb name more)
unfolding run_verb
run_verb-Obeys js verb name more = by_verb (by_tests verb)
  where
    at : String → Type 0
    at v = Obeys v more (run_verb js v name more)

    by_verb : Chosen verb → at verb
    by_verb (is_add h) = subst at (sym h) (add_stream-Obeys js name more)
    by_verb (is_add_consumer h) = subst at (sym h) (add_consumer-Obeys js name more)
    by_verb (is_info h) = subst at (sym h) (
        Obeys-RunsThrough "info" more _
          (looked_up-RunsThrough "info" name (js.found name) _
            (info_run-RunsThrough name (js.info name)))
          (omega arith) refl)
    by_verb (is_consumers h) = subst at (sym h) (
        Obeys-RunsThrough "consumers" more _
          (looked_up-RunsThrough "consumers" name (js.found name) _
            (list_run-RunsThrough name (js.listed name)))
          (omega arith) refl)
    by_verb (is_rm h) = subst at (sym h) (
        Obeys-RunsThrough "rm" more _ (deleted_run-RunsThrough name (js.deleted name)) (omega arith)
          refl)
    by_verb (no_verb a b c d e) =
        let shown : run_verb js verb name more ≡ ends usage = rw (a, b, c, d, e) refl in
        subst (Obeys verb more) (sym shown)
          (Obeys-usage verb more (rw (a, d) refl) (rw (a, b, c, d, e) refl))
