-- ===== src/Firewall/Covers.antt =====
-- What the eBPF map lets through is at most what a list of rules permits: each key that holds 1 is that
-- of a rule.
use wgxdp.Base.{ℕ, ◌≡◌, true, false, List, any, arith, if◌then◌else◌, ap, Bool-cases, inl, inr}
use wgxdp.World.{PeerRuleKey}
use wgxdp.Database.{RuleRecord}
use wgxdp.Firewall.{Rules, same_key, lookup_elem, update_elem, delete_elem}
use wgxdp.Firewall.Filter.{is_one, filter, xdp_pass, xdp_drop, packet_key}
use wgxdp.Firewall.Verdicts.{IsFiltered, filter_iff, same_key_iff, lookup_elem-delete_elem}
use wgxdp.Firewall.Permits.{has_key, is_one-update_elem, verdict_of}

pub record Covers (rules : List RuleRecord) (m : Rules) : Type 0 where
  pub covered : (k : PeerRuleKey) → is_one (lookup_elem k m) ≡ true → any (has_key k) rules ≡ true

module _ {rules : List RuleRecord} {m : Rules} (h : Covers rules m) where
  pub Covers-mono :
      {rules' : List RuleRecord}
      → ((k : PeerRuleKey) → any (has_key k) rules ≡ true → any (has_key k) rules' ≡ true)
      → Covers rules' m
  Covers-mono more = record { covered = λ k one. more k (h.covered k one) }

  pub Covers-update_elem :
      (key : PeerRuleKey) → any (has_key key) rules ≡ true → Covers rules (update_elem key 1 m)
  Covers-update_elem key there = record {
    covered = λ k one. elim (Bool-cases (same_key key k)) [
      | inl same ↦ rw (← (same_key_iff key k).0 same) there
      | inr other ↦ h.covered k (ground (arith, is_one-update_elem key k m))
    ];
  }

  -- A key that is deleted may lose its rules.
  pub Covers-delete_elem :
      {rules' : List RuleRecord} (key : PeerRuleKey)
      → ((k : PeerRuleKey)
          → same_key key k ≡ false
          → any (has_key k) rules ≡ true
          → any (has_key k) rules' ≡ true)
      → Covers rules' (delete_elem key m)
  Covers-delete_elem {rules' = rules'} key left = record {
    covered = λ k one. elim (Bool-cases (same_key key k)) [
      | inl same ↦ ground (arith, lookup_elem-delete_elem key k m)
      | inr other ↦ left k other (h.covered k (ground (arith, lookup_elem-delete_elem key k m)))
    ];
  }

  -- A packet of the subnet that passes is one that the rules permit.
  pub Covers-filter :
      (filter_net filter_mask : ℕ) (p : List ℕ)
      → IsFiltered filter_net filter_mask p
      → filter filter_net filter_mask m p ≡ xdp_pass
      → verdict_of rules p ≡ xdp_pass
  Covers-filter filter_net filter_mask p filtered passes =
      ap (λ b. if b then xdp_pass else xdp_drop)
        (h.covered (packet_key p)
          (ap is_one ((filter_iff filter_net filter_mask m p filtered).0 passes)))
