-- ===== src/Daemon/Health/Tests.antt =====
-- An app that binds its port after a second and answers after two (waitForHealthy,
-- daemon/internal/daemon/command_handler.go).
use next_deploy.Common.{ℕ, ◌≡◌, refl, Bool, true, some, leb, if◌then◌else◌, arith}
use next_deploy.Common.Text.{codes, text_eq, has_prefix}
use next_deploy.Daemon.Health.{
  Surroundings, wait, wait_for_healthy, woken, next_backoff, is_healthy, first_backoff, health_path,
}
use next_deploy.Daemon.Health.Ended.{IsVerdict, wait_for_healthy_ends, IsPunctual}

abbrev starting : Surroundings
starting = record {
  attempt = λ at. record {
    dialled = leb 1_000_000_000 at;
    status = if leb 2_000_000_000 at then some 200 else some 503;
    took = 1_000_000;
  };
  overslept = λ at. 0;
}

path_test : health_path (codes "api/health") ≡ codes "/api/health"
unfolding health_path text_eq has_prefix
path_test = refl

-- Attempts begin at 0, 101, 302, 703, 1504 and 3105 ms.
healthy_test : wait_for_healthy starting 10 60_000_000_000 0 ≡ some (true, 3_106_000_000)
unfolding wait_for_healthy wait woken next_backoff is_healthy
healthy_test = refl

-- The 600 attempts of a minute.
wait_for_healthy_ends_example :
    (outcome : Bool × ℕ) × (wait_for_healthy starting 601 60_000_000_000 0 ≡ some outcome)
    × IsVerdict starting 60_000_000_000 0 first_backoff outcome
wait_for_healthy_ends_example = wait_for_healthy_ends starting 600 60_000_000_000 0 (omega arith)

punctual : IsPunctual starting 0
unfolding IsPunctual
punctual at = (omega arith, omega arith)
