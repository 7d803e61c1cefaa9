-- ===== src/Proxy/Order.antt =====
-- The order in which a trace, its analysis job and the mark on it come about.
use new_api_gateway.Prelude.{
  ℕ, ◌+◌, ◌≤◌, String, Bool, true, false, List, [], ◌∷◌, Option, none, some, ◌≡◌, refl, ◌∙◌, arith,
  string_eq, if◌then◌else◌,
}
use new_api_gateway.Proxy.{
  TraceRecord, Trace, reported, inserted_trace, published, queued, Log, Audit,
}
use new_api_gateway.Proxy.Persist.{
  Steps, note, call, emit_with, insert_objects, mark_published, publish_with, after_objects,
  after_trace, insert_trace, trace_of,
}
use new_api_gateway.Proxy.Grows.{
  has_trace, is_ordered, jobs, Grows, grows_same, grows_by, Grows-trans, Grows-is_ordered,
  Grows-jobs, Grows-has_trace, insert_objects-Grows, emit_with-Grows,
}

-- A history that a step makes of another: it stays ordered, and has at most one job more.
pub record Published (log log' : Log) : Type 0 where
  pub ordered : is_ordered log ≡ true → is_ordered log' ≡ true
  pub at_most_one : jobs log' ≤ jobs log + 1

pub Grows-Published : {log log' : Log} → Grows log log' → Published log log'
Grows-Published g = record {
  ordered = Grows-is_ordered g;
  at_most_one = omega (arith, Grows-jobs g);
}

pub Published-after : {a b c : Log} → Grows a b → Published b c → Published a c
Published-after g p = record {
  ordered = λ h. p.ordered (Grows-is_ordered g h);
  at_most_one = omega (arith, Grows-jobs g, p.at_most_one);
}

if-Published :
    {log : Log} (b : Bool) (x y : Steps)
    → Published log x.1
    → Published log y.1
    → Published log (if b then x else y).1
if-Published true x y p q = p
if-Published false x y p q = q

note-Published :
    (id : String) (errs : List String) (log : Log) (o : Option String)
    → has_trace id log ≡ true
    → Published log (note (queued id) (errs, published id ∷ log) o).1
unfolding note
note-Published id errs log none t = record {
  ordered = λ h. rw (t, h, (string_eq.same_iff id id).1 refl);
  at_most_one = omega arith;
}
note-Published id errs log (some e) t = record {
  ordered = λ h. rw (t, h);
  at_most_one = omega arith;
}

call-Published :
    (id : String) (f : Log → Option String) (errs : List String) (log : Log)
    → has_trace id log ≡ true
    → Published log (call f (queued id) (errs, published id ∷ log)).1
unfolding call
call-Published id f errs log t = note-Published id errs log (f (published id ∷ log)) t

if-jobs :
    (log : Log) (errs : List String) (b : Bool) (y : Steps)
    → b ≡ true
    → jobs (if b then (errs, log) else y).1 ≡ jobs log
if-jobs log errs true y h = refl
if-jobs log errs false y h = absurd (ground arith)

either-jobs :
    {n : ℕ} (b : Bool) (x y : Steps) → jobs x.1 ≡ n → jobs y.1 ≡ n → jobs (if b then x else y).1 ≡ n
either-jobs true x y h k = h
either-jobs false x y h k = k

module _ (a : Audit) where
  mark_published-Published :
      (r : TraceRecord) (steps : Steps) (o : Option String)
      → has_trace r.trace_id steps.1 ≡ true
      → Published steps.1 (mark_published a r steps o).1
  unfolding mark_published
  mark_published-Published r (errs, log) (some e) t =
      Grows-Published (grows_by (reported e) refl grows_same)
  mark_published-Published r (errs, log) none t = call-Published r.trace_id a.mark_queued errs log t

  publish_with-Published :
      (r : TraceRecord) (publish : Option (Log → Option String)) (steps : Steps)
      → has_trace r.trace_id steps.1 ≡ true
      → Published steps.1 (publish_with a r publish steps).1
  unfolding publish_with
  publish_with-Published r none steps t = Grows-Published grows_same
  publish_with-Published r (some publish) steps t =
      mark_published-Published r steps (publish steps.1) t

  after_objects-Published :
      (r : TraceRecord) (steps : Steps)
      → has_trace r.trace_id steps.1 ≡ true
      → Published steps.1 (after_objects a r steps).1
  unfolding after_objects
  after_objects-Published r (e ∷ errs, log) t = Grows-Published grows_same
  after_objects-Published r ([], log) t =
      let alerted' = emit_with r a.emit_alert ([], log) in
      let g = emit_with-Grows r a.emit_alert ([], log) in
      if-Published r.skip_post_persistence _ _ (Grows-Published grows_same) (
        Published-after g
          (publish_with-Published r a.publish alerted' (Grows-has_trace r.trace_id g t)))

  after_trace-Published :
      (part_name : ℕ → String) (trace : Trace) (r : TraceRecord) (log : Log) (o : Option String)
      → trace.trace_id ≡ r.trace_id
      → Published log (after_trace a part_name trace r log o).1
  unfolding after_trace
  after_trace-Published part_name trace r log (some e) same =
      Grows-Published (grows_by (reported e) refl grows_same)
  after_trace-Published part_name trace r log none same =
      let start : Steps = ([], inserted_trace trace ∷ log) in
      let g = insert_objects-Grows a part_name r start in
      Published-after (Grows-trans (grows_by (inserted_trace trace) refl grows_same) g) (
        after_objects-Published r (insert_objects a part_name r start) (
          Grows-has_trace r.trace_id g
            (rw (same, (string_eq.same_iff r.trace_id r.trace_id).1 refl))))

  -- Whatever the audit side answers, `insertTrace` keeps the history ordered: each analysis job is
  -- published behind the insertion of its trace, and each mark is set behind its job. It publishes at
  -- most one job.
  pub insert_trace-Published :
      (part_name : ℕ → String) (has_secret : Bool) (r : TraceRecord) (log : Log)
      → Published log (insert_trace a part_name has_secret r log).1
  unfolding insert_trace trace_of
  insert_trace-Published part_name has_secret r log =
      let trace = trace_of a has_secret r in
      if-Published a.has_repo _ _
        (after_trace-Published part_name trace r log (a.insert_trace log trace) refl)
        (Grows-Published grows_same)

  after_objects-jobs :
      (r : TraceRecord) (steps : Steps)
      → r.skip_post_persistence ≡ true
      → jobs (after_objects a r steps).1 ≡ jobs steps.1
  unfolding after_objects
  after_objects-jobs r (e ∷ errs, log) skip = refl
  after_objects-jobs r ([], log) skip = if-jobs log [] r.skip_post_persistence _ skip

  after_trace-jobs :
      (part_name : ℕ → String) (trace : Trace) (r : TraceRecord) (log : Log) (o : Option String)
      → r.skip_post_persistence ≡ true
      → jobs (after_trace a part_name trace r log o).1 ≡ jobs log
  unfolding after_trace
  after_trace-jobs part_name trace r log (some e) skip = refl
  after_trace-jobs part_name trace r log none skip =
      let start : Steps = ([], inserted_trace trace ∷ log) in
      after_objects-jobs r (insert_objects a part_name r start) skip
      ∙ Grows-jobs (insert_objects-Grows a part_name r start)

  -- A record with `skipPostPersistence` leads to no analysis job.
  pub insert_trace-jobs :
      (part_name : ℕ → String) (has_secret : Bool) (r : TraceRecord) (log : Log)
      → r.skip_post_persistence ≡ true
      → jobs (insert_trace a part_name has_secret r log).1 ≡ jobs log
  unfolding insert_trace
  insert_trace-jobs part_name has_secret r log skip =
      let trace = trace_of a has_secret r in
      either-jobs a.has_repo _ _
        (after_trace-jobs part_name trace r log (a.insert_trace log trace) skip) refl
