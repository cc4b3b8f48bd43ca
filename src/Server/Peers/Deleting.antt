-- ===== src/Server/Peers/Deleting.antt =====
-- `DeletePeer` of internal/handlers_peers.go, by what holds before and after its three writes.
use wgxdp.Base.{String, string_eq, List}
use wgxdp.World.{Env}
use wgxdp.Act.Keeps.{Invariant, Keeps, Keeps-pure, Keeps-guard, Keeps-on_error, Keeps-fail}
use wgxdp.Act.Leads.{Leads, Leads-bind, Leads-Keeps, Leads-Keeps-bind, Leads-on_error}
use wgxdp.Database.{RuleRecord, PeerRecord}
use wgxdp.Database.Reads.{get_peer_by_name-Keeps}
use wgxdp.Database.Peers.{remove_peer}
use wgxdp.Database.Rules.{remove_rules_for_peer}
use wgxdp.Server.{Server, Request}
use wgxdp.Server.Keeps.{existing_peer-Keeps}
use wgxdp.Server.Leads.{Reaches, Leads-handler}
use wgxdp.Server.Unlinking.{unlink-Keeps}
use wgxdp.Server.Peers.{unload, forget, delete_found, delete_named, delete_peer}

-- `J` holds before and after the deletion, and `K` of the rules that have left the table while they may
-- still be in the map.
module _ {J : Invariant} {K : List RuleRecord → Invariant} (s : Server) (env : Env)
    (removed : (src : String) → Leads env J K J (remove_rules_for_peer src))
    (unloaded : (rs : List RuleRecord) → Leads env (K rs) (λ _. J) J (unload s rs))
    (gone : (name : String) → Keeps J (remove_peer name)) where
  forget-Leads : (peer : PeerRecord) (name : String) → Leads env J (λ _. J) J (forget s peer name)
  unfolding forget
  forget-Leads peer name =
      Leads-bind env _ (Leads-on_error env _ (removed peer.assigned_ip) _) _ λ rs.
        Leads-bind env _ (unloaded rs) _ λ _.
          Leads-Keeps-bind env _ _ (Keeps-on_error _ _ (gone name) (λ e. Keeps-fail _))
            λ _. Leads-Keeps env _ (Keeps-pure _)

  delete_named-Leads : (name : String) → Leads env J (λ _. J) J (delete_named s name)
  unfolding delete_named delete_found
  delete_named-Leads name =
      Leads-Keeps-bind env _ _
        (Keeps-on_error _ _ (get_peer_by_name-Keeps name) (λ e. Keeps-fail _))
        λ found. Leads-Keeps-bind env _ _ (existing_peer-Keeps found) λ peer.
          Leads-Keeps-bind env _ _ (unlink-Keeps s peer.public_key) λ _. forget-Leads peer name

  pub delete_peer-Reaches : {B : Type 0} (req : Request B) → Reaches env J J (delete_peer s req)
  unfolding delete_peer
  delete_peer-Reaches req =
      Leads-handler env _
        (Leads-Keeps-bind env _ _ (Keeps-guard _ _) λ _. delete_named-Leads (req.path_value "name"))
