-- ===== src/Relations/LinkHealth/Tests.antt =====
-- Runs of the judgement, and of liveness on a store with one chain.
use oh_my_document.Prelude.{
  ℕ, ◌<◌, Bool, true, false, [], ◌∷◌, Text, none, some, codes, starts_with, ◌≡◌, ◌↔◌, refl,
}
use oh_my_document.Prelude.Maps.{lookup}
use oh_my_document.Records.Crates.{Crates}
use oh_my_document.Records.Store.{Link, Store, default_state}
use oh_my_document.Relations.LinkHealth.{obliged, judge_link, endpoint_alive, guard_turns}
use oh_my_document.Relations.LinkHealth.Strata.{Means, stratum, judge_link_iff}
use oh_my_document.Relations.LinkHealth.Liveness.{OnChain, endpoint_alive_iff}

abbrev sample : Link
sample = record {
  link_id = codes "L";
  source = codes "file:ab";
  target = codes "range:0C";
  source_version = codes "ab";
  target_version = codes "0C";
  created_by = codes "ab";
}

abbrev always : Text → Bool
always s = true

abbrev never : Text → Bool
never s = false

judge_link_iff_example :
    (((judge_link sample always never 2).health ≡ obliged) ↔ Means sample always never 2 obliged)
    × ((judge_link sample always never 2).failing_stratum
        ≡ stratum (judge_link sample always never 2).health)
judge_link_iff_example = judge_link_iff sample always never 2 obliged

instance abbrev lax : Crates
lax = record {
  is_rfc3339 = λ s. true;
  hex_decode = λ s. none;
  sha256 = λ s. s;
  hex_encode = λ s. s;
}

abbrev store : Store
store = record {
  state = record default_state { tips = (codes "file:ab", codes "ab") ∷ [] };
  commits = [];
}

endpoint_alive_iff_example : (endpoint_alive store (codes "file:ab") (codes "ab") ≡ true) ↔ (
    (tip : Text) × (n : ℕ) × (lookup (codes "file:ab") store.state.tips ≡ some tip)
    × (n < guard_turns)
    × OnChain store (codes "ab") tip n)
endpoint_alive_iff_example =
    endpoint_alive_iff store (codes "file:ab") (codes "ab") (unfold starts_with in refl)
