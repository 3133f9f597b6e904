-- ===== src/Api/Health/Ready.antt =====
-- When the service is ready.
use cellora.Prelude.{
  ℕ, ◌≡◌, refl, Bool, true, false, ◌&&◌, Option, none, some, Bytes, bytes_eq, codes, if◌then◌else◌,
}
use cellora.Api.Health.{
  Probe, answered, failed, elapsed, probe_db, probe_redis, probe_ckb, any_error, readiness,
}

abbrev pub responds : {A : Type 0} → Probe A → Bool
responds (answered a) = true
responds failed = false
responds elapsed = false

-- A dependency that is not configured is not missed.
abbrev pub not_missed : {A : Type 0} → Option (Probe A) → Bool
not_missed none = true
not_missed (some probe) = responds probe

-- The readiness of the service is that the database and each of Redis and the node that is configured
-- answered in time, whatever they answered, also a node that is still downloading: then the answer
-- is 200 and "ready", and otherwise 503 and "not_ready".
pub readiness-responds :
    (db : Probe ℕ) (redis : Option (Probe Bytes)) (ckb : Option (Probe (Bool × ℕ)))
    → ((readiness db redis ckb).0
        ≡ (if responds db && (not_missed redis && not_missed ckb) then 200 else 503))
      × ((readiness db redis ckb).1.status ≡ (
          if responds db && (not_missed redis && not_missed ckb)
          then codes "ready"
          else codes "not_ready"))
unfolding readiness any_error probe_db probe_redis probe_ckb bytes_eq
readiness-responds failed redis ckb = (refl, refl)
readiness-responds elapsed redis ckb = (refl, refl)
readiness-responds (answered one) (some failed) ckb = (refl, refl)
readiness-responds (answered one) (some elapsed) ckb = (refl, refl)
readiness-responds (answered one) none none = (refl, refl)
readiness-responds (answered one) none (some (answered (is_ibd, tip))) = (refl, refl)
readiness-responds (answered one) none (some failed) = (refl, refl)
readiness-responds (answered one) none (some elapsed) = (refl, refl)
readiness-responds (answered one) (some (answered pong)) none = (refl, refl)
readiness-responds (answered one) (some (answered pong)) (some (answered (is_ibd, tip))) =
    (refl, refl)
readiness-responds (answered one) (some (answered pong)) (some failed) = (refl, refl)
readiness-responds (answered one) (some (answered pong)) (some elapsed) = (refl, refl)
