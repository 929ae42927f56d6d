-- ===== src/Relations/LinkHealth/Strata.antt =====
-- The five states exclude each other, and what each of them means.
use oh_my_document.Prelude.{
  ℕ, ◌<◌, Bool, true, false, ◌&&◌, ◌||◌, Text, Option, none, some, ◌≡◌, ◌↔◌, arith,
}
use oh_my_document.Records.Store.{Link}
use oh_my_document.Relations.LinkHealth.{
  LinkHealth, broken, withdrawn, obliged, stale, healthy, plausible_endpoint, judge_link,
}

-- What a state says of a link.
unfoldable pub Means : Link → (Text → Bool) → (Text → Bool) → ℕ → LinkHealth → Type 0
Means link alive dirty pending broken =
    (plausible_endpoint link.source && plausible_endpoint link.target) ≡ false
Means link alive dirty pending withdrawn =
    ((plausible_endpoint link.source && plausible_endpoint link.target) ≡ true)
    × ((alive link.source && alive link.target) ≡ false)
Means link alive dirty pending obliged =
    ((plausible_endpoint link.source && plausible_endpoint link.target) ≡ true)
    × ((alive link.source && alive link.target) ≡ true)
    × (0 < pending)
Means link alive dirty pending stale =
    ((plausible_endpoint link.source && plausible_endpoint link.target) ≡ true)
    × ((alive link.source && alive link.target) ≡ true)
    × (pending ≡ 0)
    × ((dirty link.source || dirty link.target) ≡ true)
Means link alive dirty pending healthy =
    ((plausible_endpoint link.source && plausible_endpoint link.target) ≡ true)
    × ((alive link.source && alive link.target) ≡ true)
    × (pending ≡ 0)
    × ((dirty link.source || dirty link.target) ≡ false)

-- The stratum at which a link fails.
unfoldable pub stratum : LinkHealth → Option ℕ
stratum broken = some 0
stratum withdrawn = some 1
stratum obliged = some 2
stratum stale = some 2
stratum healthy = none

-- A link is judged to be in a state just when that state's conditions hold, those of the
-- earlier strata being passed; and the failing stratum is the one of the state.
pub judge_link_iff :
    (link : Link) (alive dirty : Text → Bool) (pending : ℕ) (h : LinkHealth)
    → (((judge_link link alive dirty pending).health ≡ h) ↔ Means link alive dirty pending h)
      × ((judge_link link alive dirty pending).failing_stratum
          ≡ stratum (judge_link link alive dirty pending).health)
unfolding judge_link Means stratum
judge_link_iff link alive dirty pending broken = ground arith
judge_link_iff link alive dirty pending withdrawn = ground arith
judge_link_iff link alive dirty pending obliged = ground arith
judge_link_iff link alive dirty pending stale = ground arith
judge_link_iff link alive dirty pending healthy = ground arith
