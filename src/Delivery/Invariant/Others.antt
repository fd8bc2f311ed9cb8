-- ===== src/Delivery/Invariant/Others.antt =====
-- Moves of the sessions and the jobs.
use codex_background_task_ha.Base.{
  eq_of_==, ℕ, ◌≤◌, ◌≡◌, ap, true, false, List, [], ◌∷◌, ◌++◌, arith, inl, inr, ◌==◌, Keyed,
  Keyed-append, any_where, count_where, Pointwise, Pointwise-Keyed, Pointwise-count_le,
  count-append, count-none, Bool-cases,
}
use codex_background_task_ha.Models.{JobRecord, CliManagedSessionRecord}
use codex_background_task_ha.Store.{Store}
use codex_background_task_ha.Delivery.Edges.{SessionEdge}
use codex_background_task_ha.Delivery.Invariant.{bound_to, Inv}

pub edit_sessions-Inv :
    (s : Store) (rows : List CliManagedSessionRecord)
    → Pointwise SessionEdge s.cli_managed_sessions rows
    → Inv s
    → Inv (record s { cli_managed_sessions = rows })
edit_sessions-Inv s rows p v = record {
  jobs_keyed = v.jobs_keyed;
  batches_keyed = v.batches_keyed;
  attempts_keyed = v.attempts_keyed;
  sessions_keyed =
      Pointwise-Keyed SessionEdge (λ c. c.managed_session_id) (λ c d e. e.same_id) p
        v.sessions_keyed;
  housed = v.housed;
  accounted = v.accounted;
  single_flight = v.single_flight;
  single_session = λ thread. omega (
    arith,
    v.single_session thread,
    Pointwise-count_le SessionEdge (bound_to thread) (bound_edge thread) p,
  );
}
  where
    bound_edge :
        (thread : ℕ) (c d : CliManagedSessionRecord)
        → SessionEdge c d
        → bound_to thread d ≡ true
        → bound_to thread c ≡ true
    bound_edge thread c d e q = ground (arith, e.same_thread, e.retired_stays)

module _ (s : Store) (row : CliManagedSessionRecord) (v : Inv s)
    (fresh : any_where (λ c. c.managed_session_id == row.managed_session_id) s.cli_managed_sessions
      ≡ false)
    (free : any_where (bound_to row.bound_thread_id) s.cli_managed_sessions ≡ false) where
  single_row : (thread : ℕ) → count_where (bound_to thread) (s.cli_managed_sessions ++ row ∷ []) ≤ 1
  unfolding count_where
  single_row thread =
      let none_ = count-none (bound_to row.bound_thread_id) s.cli_managed_sessions free in
      elim (Bool-cases (row.bound_thread_id == thread)) [
        | inl e ↦
            (let same =
                ap (λ t. count_where (bound_to t) s.cli_managed_sessions) (eq_of_== _ _ e) in
              ground (
                arith,
                count-append (bound_to thread) s.cli_managed_sessions (row ∷ []),
                none_,
                same,
              ))
        | inr n ↦ ground (
          arith,
          count-append (bound_to thread) s.cli_managed_sessions (row ∷ []),
          v.single_session thread,
        )
      ]

  pub add_session-Inv : Inv (record s { cli_managed_sessions = s.cli_managed_sessions ++ row ∷ [] })
  add_session-Inv = record {
    jobs_keyed = v.jobs_keyed;
    batches_keyed = v.batches_keyed;
    attempts_keyed = v.attempts_keyed;
    sessions_keyed =
        Keyed-append (λ c. c.managed_session_id) s.cli_managed_sessions row v.sessions_keyed fresh;
    housed = v.housed;
    accounted = v.accounted;
    single_flight = v.single_flight;
    single_session = single_row;
  }

-- The invariant reads only the keys of the jobs.
pub jobs-Inv :
    (s : Store) (rows : List JobRecord)
    → Keyed (λ j. j.job_id) rows
    → Inv s
    → Inv (record s { jobs = rows })
jobs-Inv s rows k v = record {
  jobs_keyed = k;
  batches_keyed = v.batches_keyed;
  attempts_keyed = v.attempts_keyed;
  sessions_keyed = v.sessions_keyed;
  housed = v.housed;
  accounted = v.accounted;
  single_flight = v.single_flight;
  single_session = v.single_session;
}
