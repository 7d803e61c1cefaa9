-- ===== src/Proxy/Grows.antt =====
-- What the steps of `insertTrace` may add to the history.
use new_api_gateway.Prelude.{
  ℕ, ◌+◌, String, Bool, true, false, ◌&&◌, ◌||◌, List, [], ◌∷◌, Option, none, some, ◌≡◌, refl,
  arith, ◌==◌, string_eq, if◌then◌else◌,
}
use new_api_gateway.Text.{is_empty}
use new_api_gateway.Proxy.{
  Object, Part, TraceRecord, Event, reported, spooled, stored, inserted_trace, inserted_raw,
  alerted, published, queued, Log, Put, put_failed, put_object, Audit,
}
use new_api_gateway.Proxy.Persist.{
  Steps, put_answer, put_with, note, emit_with, put_evidence, insert_raw, insert_evidence_object,
  insert_with_ref, insert_part, insert_parts, insert_objects, call, is_ignored_coverage_path,
}

-- The trace has been written.
abbrev pub has_trace : String → Log → Bool
has_trace id [] = false
has_trace id (inserted_trace t ∷ log) = t.trace_id == id || has_trace id log
has_trace id (event ∷ log) = has_trace id log

-- The job has been published.
abbrev pub has_job : String → Log → Bool
has_job id [] = false
has_job id (published job ∷ log) = job == id || has_job id log
has_job id (event ∷ log) = has_job id log

-- Each job was published behind its trace, and each mark was set behind its job.
abbrev pub is_ordered : Log → Bool
is_ordered [] = true
is_ordered (published id ∷ log) = has_trace id log && is_ordered log
is_ordered (queued id ∷ log) = has_job id log && is_ordered log
is_ordered (event ∷ log) = is_ordered log

-- How many jobs were published.
abbrev pub jobs : Log → ℕ
jobs [] = 0
jobs (published id ∷ log) = jobs log + 1
jobs (event ∷ log) = jobs log

-- The event is neither a job nor a mark.
abbrev pub is_plain : Event → Bool
is_plain (published id) = false
is_plain (queued id) = false
is_plain event = true

-- The history has grown by plain events only.
pub data Grows (log : Log) : Log → Type 0 where
  grows_same : Grows log log
  grows_by :
      {log' : Log} (event : Event)
      → is_plain event ≡ true
      → Grows log log'
      → Grows log (event ∷ log')

pub Grows-trans : {a b c : Log} → Grows a b → Grows b c → Grows a c
Grows-trans g grows_same = g
Grows-trans g (grows_by event p h) = grows_by event p (Grows-trans g h)

module _ {log : Log} where
  pub Grows-is_ordered :
      {log' : Log} → Grows log log' → is_ordered log ≡ true → is_ordered log' ≡ true
  Grows-is_ordered grows_same h = h
  Grows-is_ordered (grows_by (reported e) p g) h = Grows-is_ordered g h
  Grows-is_ordered (grows_by (spooled e) p g) h = Grows-is_ordered g h
  Grows-is_ordered (grows_by (stored e) p g) h = Grows-is_ordered g h
  Grows-is_ordered (grows_by (inserted_trace e) p g) h = Grows-is_ordered g h
  Grows-is_ordered (grows_by (inserted_raw e f) p g) h = Grows-is_ordered g h
  Grows-is_ordered (grows_by (alerted e) p g) h = Grows-is_ordered g h
  Grows-is_ordered (grows_by (published e) p g) h = absurd (ground arith)
  Grows-is_ordered (grows_by (queued e) p g) h = absurd (ground arith)

  pub Grows-jobs : {log' : Log} → Grows log log' → jobs log' ≡ jobs log
  Grows-jobs grows_same = refl
  Grows-jobs (grows_by (reported e) p g) = Grows-jobs g
  Grows-jobs (grows_by (spooled e) p g) = Grows-jobs g
  Grows-jobs (grows_by (stored e) p g) = Grows-jobs g
  Grows-jobs (grows_by (inserted_trace e) p g) = Grows-jobs g
  Grows-jobs (grows_by (inserted_raw e f) p g) = Grows-jobs g
  Grows-jobs (grows_by (alerted e) p g) = Grows-jobs g
  Grows-jobs (grows_by (published e) p g) = absurd (ground arith)
  Grows-jobs (grows_by (queued e) p g) = absurd (ground arith)

  pub Grows-has_trace :
      (id : String) {log' : Log}
      → Grows log log'
      → has_trace id log ≡ true
      → has_trace id log' ≡ true
  Grows-has_trace id grows_same h = h
  Grows-has_trace id (grows_by (reported e) p g) h = Grows-has_trace id g h
  Grows-has_trace id (grows_by (spooled e) p g) h = Grows-has_trace id g h
  Grows-has_trace id (grows_by (stored e) p g) h = Grows-has_trace id g h
  Grows-has_trace id (grows_by (inserted_trace e) p g) h =
      let later = Grows-has_trace id g h in ground arith
  Grows-has_trace id (grows_by (inserted_raw e f) p g) h = Grows-has_trace id g h
  Grows-has_trace id (grows_by (alerted e) p g) h = Grows-has_trace id g h
  Grows-has_trace id (grows_by (published e) p g) h = absurd (ground arith)
  Grows-has_trace id (grows_by (queued e) p g) h = absurd (ground arith)

module _ {log : Log} {A : Type 0} where
  pub if-Grows :
      (b : Bool) (x y : A × Log) → Grows log x.1 → Grows log y.1 → Grows log (if b then x else y).1
  if-Grows true x y g h = g
  if-Grows false x y g h = h

put_answer-Grows :
    (object_type : String) (log : Log) (p : Put) → Grows log (put_answer object_type log p).1
unfolding put_answer
put_answer-Grows object_type log (put_failed e) = grows_same
put_answer-Grows object_type log (put_object o) = grows_by (stored object_type) refl grows_same

put_with-Grows :
    (store : Option (Log → String → String → List ℕ → Put)) (object_type content_type : String)
    (body : List ℕ) (log : Log)
    → Grows log (put_with store object_type content_type body log).1
unfolding put_with
put_with-Grows none object_type content_type body log = grows_same
put_with-Grows (some store) object_type content_type body log =
    put_answer-Grows object_type log (store log object_type content_type body)

note-Grows :
    (event : Event) (steps : Steps) (o : Option String)
    → is_plain event ≡ true
    → Grows steps.1 (note event steps o).1
unfolding note
note-Grows event (errs, log) none p = grows_by event p grows_same
note-Grows event (errs, log) (some e) p = grows_by (reported e) refl grows_same

pub call-Grows :
    (f : Log → Option String) (event : Event) (steps : Steps)
    → is_plain event ≡ true
    → Grows steps.1 (call f event steps).1
unfolding call
call-Grows f event steps p = note-Grows event steps (f steps.1) p

pub emit_with-Grows :
    (r : TraceRecord) (emit : Option (Log → Option String)) (steps : Steps)
    → Grows steps.1 (emit_with r emit steps).1
unfolding emit_with
emit_with-Grows r none steps = grows_same
emit_with-Grows r (some emit) steps =
    if-Grows (is_ignored_coverage_path r.request.path) _ _ grows_same (
      if-Grows (r.entry.unsupported_alert_code == "known_route_raw_first") _ _
        (call-Grows emit (alerted r.trace_id) steps refl) grows_same)

module _ (a : Audit) where
  pub put_evidence-Grows :
      (object_type content_type : String) (body : List ℕ) (log : Log)
      → Grows log (put_evidence a object_type content_type body log).1
  unfolding put_evidence
  put_evidence-Grows object_type content_type body log =
      put_with-Grows a.store object_type content_type body log

  insert_raw-Grows :
      (object_type : String) (o : Object) (steps : Steps)
      → Grows steps.1 (insert_raw a object_type o steps).1
  unfolding insert_raw
  insert_raw-Grows object_type o steps =
      call-Grows (λ log. a.insert_raw log object_type o) (inserted_raw object_type o.object_ref)
        steps refl

  insert_evidence_object-Grows :
      (object_type : String) (o : Object) (steps : Steps)
      → Grows steps.1 (insert_evidence_object a object_type o steps).1
  unfolding insert_evidence_object
  insert_evidence_object-Grows object_type o steps =
      if-Grows o.created _ _ (insert_raw-Grows object_type o steps) grows_same

  insert_with_ref-Grows :
      (object_type : String) (o : Object) (steps : Steps)
      → Grows steps.1 (insert_with_ref a object_type o steps).1
  unfolding insert_with_ref
  insert_with_ref-Grows object_type o steps =
      if-Grows (is_empty o.object_ref) _ _ grows_same
        (insert_evidence_object-Grows object_type o steps)

  insert_part-Grows : (p : Put × Log) (errs : List String) → Grows p.1 (insert_part a p errs).1
  unfolding insert_part
  insert_part-Grows (put_failed e, log) errs = grows_by (reported e) refl grows_same
  insert_part-Grows (put_object o, log) errs =
      if-Grows o.created _ _
        (if-Grows (is_empty o.object_ref) _ _ grows_same
          (insert_raw-Grows "multipart_part" o (errs, log)))
        grows_same

  insert_parts-Grows :
      (part_name : ℕ → String) (index : ℕ) (parts : List Part) (steps : Steps)
      → Grows steps.1 (insert_parts a part_name index parts steps).1
  unfolding insert_parts
  insert_parts-Grows part_name index [] steps = grows_same
  insert_parts-Grows part_name index (part ∷ parts) (errs, log) =
      let put = put_evidence a (part_name (index + 1)) part.content_type part.data_ log in
      Grows-trans (put_evidence-Grows (part_name (index + 1)) part.content_type part.data_ log) (
        Grows-trans (insert_part-Grows put errs)
          (insert_parts-Grows part_name (index + 1) parts (insert_part a put errs)))

  pub insert_objects-Grows :
      (part_name : ℕ → String) (r : TraceRecord) (steps : Steps)
      → Grows steps.1 (insert_objects a part_name r steps).1
  unfolding insert_objects
  insert_objects-Grows part_name r steps =
      let first = insert_evidence_object a "request_body" r.request_object steps in
      let second = insert_with_ref a "request_headers" r.request_headers_object first in
      let third = insert_parts a part_name 0 r.multipart_parts second in
      let fourth = insert_with_ref a "response_body" r.response_object third in
      let fifth = insert_with_ref a "response_headers" r.response_headers_object fourth in
      Grows-trans (insert_evidence_object-Grows "request_body" r.request_object steps) (
        Grows-trans (insert_with_ref-Grows "request_headers" r.request_headers_object first) (
          Grows-trans (insert_parts-Grows part_name 0 r.multipart_parts second) (
            Grows-trans (insert_with_ref-Grows "response_body" r.response_object third) (
              Grows-trans
                (insert_with_ref-Grows "response_headers" r.response_headers_object fourth)
                (insert_with_ref-Grows "websocket_log" r.websocket_log_object fifth)))))
