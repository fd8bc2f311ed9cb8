-- ===== src/Delivery/Growth.antt =====
-- The rows of the tables along a run of moves.
use codex_background_task_ha.Base.{
  ℕ, ◌≡◌, refl, ◌∙◌, true, List, Option, Pointwise-Evolve, Evolve, Evolve-refl, Evolve-trans,
  Evolve-append, Evolve-update, arith,
}
use codex_background_task_ha.Models.{
  JobRecord, BatchRecord, DeliveryAttemptRecord, CliManagedSessionRecord,
  PluginDeliveryRequestRecord,
}
use codex_background_task_ha.Store.{Store}
use codex_background_task_ha.Store.Batches.{close_batch, is_open_batch, has_budget, count_delivery}
use codex_background_task_ha.Store.Outcomes.{is_pending_attempt}
use codex_background_task_ha.Delivery.Edges.{
  BatchEdge, BatchEdge-refl, BatchEdge-trans, AttemptEdge, AttemptEdge-refl, AttemptEdge-trans,
  Calm, SessionEdge, SessionEdge-refl, SessionEdge-trans, JobEdge, JobEdge-refl, JobEdge-trans,
}
use codex_background_task_ha.Delivery.Moves.{
  Move, Moves, Tame, edit_attempts, edit_batches, close, spend, add_attempt, add_batch,
  edit_sessions, add_session, edit_jobs, add_job, edit_artifacts, add_request, edit_audits, stay,
  follow,
}

abbrev pub Same : PluginDeliveryRequestRecord → PluginDeliveryRequestRecord → Type 0
Same p q = p ≡ q

-- Every table has grown, and each old row has moved along the edges of its kind.
pub record Grows (s t : Store) : Type 0 where
  pub jobs : Evolve JobEdge s.jobs t.jobs
  pub batches : Evolve BatchEdge s.batches t.batches
  pub attempts : Evolve AttemptEdge s.delivery_attempts t.delivery_attempts
  pub sessions : Evolve SessionEdge s.cli_managed_sessions t.cli_managed_sessions
  pub requests : Evolve Same s.plugin_delivery_requests t.plugin_delivery_requests

same_jobs : (s : Store) → Evolve JobEdge s.jobs s.jobs
same_jobs s = Evolve-refl JobEdge JobEdge-refl s.jobs

same_batches : (s : Store) → Evolve BatchEdge s.batches s.batches
same_batches s = Evolve-refl BatchEdge BatchEdge-refl s.batches

same_attempts : (s : Store) → Evolve AttemptEdge s.delivery_attempts s.delivery_attempts
same_attempts s = Evolve-refl AttemptEdge AttemptEdge-refl s.delivery_attempts

same_sessions : (s : Store) → Evolve SessionEdge s.cli_managed_sessions s.cli_managed_sessions
same_sessions s = Evolve-refl SessionEdge SessionEdge-refl s.cli_managed_sessions

Same-requests : (s : Store) → Evolve Same s.plugin_delivery_requests s.plugin_delivery_requests
Same-requests s = Evolve-refl Same (λ p. refl) s.plugin_delivery_requests

pub Grows-refl : (s : Store) → Grows s s
Grows-refl s = record {
  jobs = same_jobs s;
  batches = same_batches s;
  attempts = same_attempts s;
  sessions = same_sessions s;
  requests = Same-requests s;
}

pub Grows-trans : {s t u : Store} → Grows s t → Grows t u → Grows s u
Grows-trans g h = record {
  jobs = Evolve-trans JobEdge JobEdge-trans g.jobs h.jobs;
  batches = Evolve-trans BatchEdge BatchEdge-trans g.batches h.batches;
  attempts = Evolve-trans AttemptEdge AttemptEdge-trans g.attempts h.attempts;
  sessions = Evolve-trans SessionEdge SessionEdge-trans g.sessions h.sessions;
  requests = Evolve-trans Same (λ p q r x y. x ∙ y) g.requests h.requests;
}

close-BatchEdge :
    (k reason : ℕ) (remark : Option ℕ) (now : ℕ) (b : BatchRecord)
    → is_open_batch k b ≡ true
    → BatchEdge b (close_batch reason remark now b)
unfolding is_open_batch close_batch
close-BatchEdge k reason remark now b h = ground arith

count-BatchEdge :
    (k now : ℕ) (b : BatchRecord) → has_budget k b ≡ true → BatchEdge b (count_delivery now b)
unfolding has_budget count_delivery
count-BatchEdge k now b h = ground arith

-- The tables that a move leaves alone.
module _ (s : Store) where
  only_jobs :
      (rows : List JobRecord) → Evolve JobEdge s.jobs rows → Grows s (record s { jobs = rows })
  only_jobs rows e = record {
    jobs = e;
    batches = same_batches s;
    attempts = same_attempts s;
    sessions = same_sessions s;
    requests = Same-requests s;
  }

  only_batches :
      (rows : List BatchRecord)
      → Evolve BatchEdge s.batches rows
      → Grows s (record s { batches = rows })
  only_batches rows e = record {
    jobs = same_jobs s;
    batches = e;
    attempts = same_attempts s;
    sessions = same_sessions s;
    requests = Same-requests s;
  }

  only_attempts :
      (rows : List DeliveryAttemptRecord)
      → Evolve AttemptEdge s.delivery_attempts rows
      → Grows s (record s { delivery_attempts = rows })
  only_attempts rows e = record {
    jobs = same_jobs s;
    batches = same_batches s;
    attempts = e;
    sessions = same_sessions s;
    requests = Same-requests s;
  }

  only_sessions :
      (rows : List CliManagedSessionRecord)
      → Evolve SessionEdge s.cli_managed_sessions rows
      → Grows s (record s { cli_managed_sessions = rows })
  only_sessions rows e = record {
    jobs = same_jobs s;
    batches = same_batches s;
    attempts = same_attempts s;
    sessions = e;
    requests = Same-requests s;
  }

pub Move-Grows : {s t : Store} → Move s t → Grows s t
Move-Grows {s} (edit_attempts rows p) =
    only_attempts s rows (Pointwise-Evolve Calm AttemptEdge (λ a c e. e.edge) p)
Move-Grows {s} (edit_batches rows p) =
    only_batches s rows (Pointwise-Evolve Tame BatchEdge (λ b c e. e.edge) p)
Move-Grows {s} (close k reason remark now quiet) = only_batches s _ (
    Evolve-update BatchEdge BatchEdge-refl (is_open_batch k) _ s.batches
      (close-BatchEdge k reason remark now))
Move-Grows {s} (spend k a f now there p sp e one) = record {
  jobs = same_jobs s;
  batches =
      Evolve-update BatchEdge BatchEdge-refl (has_budget a.batch_id) _ s.batches
        (count-BatchEdge a.batch_id now);
  attempts =
      Evolve-update AttemptEdge AttemptEdge-refl (is_pending_attempt k) f s.delivery_attempts e;
  sessions = same_sessions s;
  requests = Same-requests s;
}
Move-Grows {s} (add_attempt row b there o auto idle fresh unspent) =
    only_attempts s _ (Evolve-append AttemptEdge AttemptEdge-refl s.delivery_attempts _)
Move-Grows {s} (add_batch b links fresh) = record {
  jobs = same_jobs s;
  batches = Evolve-append BatchEdge BatchEdge-refl s.batches _;
  attempts = same_attempts s;
  sessions = same_sessions s;
  requests = Same-requests s;
}
Move-Grows {s} (edit_sessions rows p) =
    only_sessions s rows (Pointwise-Evolve SessionEdge SessionEdge (λ c d e. e) p)
Move-Grows {s} (add_session row fresh free) =
    only_sessions s _ (Evolve-append SessionEdge SessionEdge-refl s.cli_managed_sessions _)
Move-Grows {s} (edit_jobs rows p) =
    only_jobs s rows (Pointwise-Evolve JobEdge JobEdge (λ j k e. e) p)
Move-Grows {s} (add_job row fresh) = only_jobs s _ (Evolve-append JobEdge JobEdge-refl s.jobs _)
Move-Grows {s} (edit_artifacts rows) = record {
  jobs = same_jobs s;
  batches = same_batches s;
  attempts = same_attempts s;
  sessions = same_sessions s;
  requests = Same-requests s;
}
Move-Grows {s} (add_request row) = record {
  jobs = same_jobs s;
  batches = same_batches s;
  attempts = same_attempts s;
  sessions = same_sessions s;
  requests = Evolve-append Same (λ p. refl) s.plugin_delivery_requests _;
}
Move-Grows {s} (edit_audits rows) = record {
  jobs = same_jobs s;
  batches = same_batches s;
  attempts = same_attempts s;
  sessions = same_sessions s;
  requests = Same-requests s;
}

pub Moves-Grows : {s t : Store} → Moves s t → Grows s t
Moves-Grows {s} stay = Grows-refl s
Moves-Grows (follow p m) = Grows-trans (Moves-Grows p) (Move-Grows m)
