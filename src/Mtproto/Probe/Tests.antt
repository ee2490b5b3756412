-- ===== src/Mtproto/Probe/Tests.antt =====
-- A proxy that answers to the third candidate.
use mtproto_checker.Common.{err, false, if◌then◌else◌, none, ok, refl, ℕ, ◌==◌, ◌↔◌, ◌≡◌}
use mtproto_checker.Common.Text.{codes}
use mtproto_checker.Proxy.Secret.{mode_secure}
use mtproto_checker.Mtproto.Probe.{
  Failure, World, candidates_for, candidates_of, fail_as, is_final, kind_closed, plain_fault,
  probe_mtproto, stage_protocol, try_from,
}
use mtproto_checker.Mtproto.Probe.Candidates.{IsFirst, probe_mtproto-IsFirst}

abbrev silent : Failure
silent = fail_as stage_protocol kind_closed (plain_fault (codes "EOF"))

abbrev third : World ℕ
third = record {
  attempt = λ i cand. if i == 2 then ok cand.dc else err silent;
  late = λ i. false;
  ended = λ i. none;
  problem = λ cand e. e.fault.text;
}

probe_mtproto-IsFirst_example :
    (probe_mtproto third mode_secure 4 ≡ ok 2) ↔ IsFirst third 2 0 (candidates_of mode_secure 4)
probe_mtproto-IsFirst_example = probe_mtproto-IsFirst third 2 mode_secure 4 (λ j. refl)

probe_mtproto_test : probe_mtproto third mode_secure 4 ≡ ok 2
unfolding probe_mtproto try_from candidates_of candidates_for is_final
probe_mtproto_test = refl
