-- ===== src/Network/Identity.antt =====
-- What `Owner::authenticate` of src/commands/activator/network.rs establishes of a caller.
use sower.Prelude.{◌≡◌, List, ok, Text, lines, arith, inl, inr, Result-cases}
use sower.Policy.{Policy}
use sower.Network.Lease.{Owner, PeerCredentials}
use sower.Network.Os.{Env, Op, ProcFile, World, ◌>>=◌}
use sower.Network.Peer.{cgroup_instance, read_proc, process_starttime, authenticate}
use sower.Network.Cgroup.{IsAmong, cgroup_instance_sound}

-- The kernel's text for the peer's cgroup, read after so much was asked, has the line of the unit.
pub record IsAuthentic (env : Env) (policy : Policy) (peer : PeerCredentials) (owner : Owner)
    : Type 0 where
  pub same_peer : owner.peer ≡ peer
  pub trace : List Op
  pub cgroup : Text
  pub answered : env.proc_text trace peer.pid ProcFile.cgroup ≡ ok cgroup
  pub in_unit : IsAmong policy.garden_units (lines cgroup) owner.instance_name

-- A caller that is authenticated has the credentials of its socket, and when its process was asked about, its cgroup text had a line `0::/system.slice/<unit>`, with nothing behind the unit or a `/` and more, where the unit, without a `/` in it, is configured and is the instance.
pub authenticate_lem :
    (env : Env) (policy : Policy) (peer : PeerCredentials) (w : World) (owner : Owner)
    → (authenticate env policy peer w).0 ≡ ok owner
    → IsAuthentic env policy peer owner
unfolding authenticate ◌>>=◌ read_proc
authenticate_lem env policy peer w owner h =
    elim (Result-cases (process_starttime env peer.pid w).0) [
      | inr (e, f) ↦ absurd (ground arith)
      | inl (start, f) ↦
          let w1 = (process_starttime env peer.pid w).1 in
          let w2 = (read_proc env peer.pid ProcFile.status w1).1 in
          let r = env.proc_text w2.trace peer.pid ProcFile.cgroup in
          elim (Result-cases r) [
            | inr (e, g) ↦ absurd (ground arith)
            | inl (cgroup, g) ↦ elim (Result-cases (cgroup_instance cgroup policy.garden_units)) [
              | inr (e, k) ↦ absurd (ground arith)
              | inl (name, k) ↦
                  let facts : (owner.instance_name ≡ name) × (owner.peer ≡ peer) = ground arith in
                  record {
                    same_peer = facts.1;
                    trace = w2.trace;
                    cgroup = cgroup;
                    answered = g;
                    in_unit = rw facts.0 (cgroup_instance_sound cgroup policy.garden_units name k);
                  }
            ]
          ]
    ]
