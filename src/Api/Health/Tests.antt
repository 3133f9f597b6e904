-- ===== src/Api/Health/Tests.antt =====
-- The readiness of a service beside a node that is still downloading.
use cellora.Prelude.{◌≡◌, true, none, some, codes}
use cellora.Api.Health.{answered, readiness}
use cellora.Api.Health.Ready.{readiness-responds}

readiness-responds_example :
    ((readiness (answered 1) none (some (answered (true, 9)))).0 ≡ 200)
    × ((readiness (answered 1) none (some (answered (true, 9)))).1.status ≡ codes "ready")
readiness-responds_example = readiness-responds (answered 1) none (some (answered (true, 9)))
