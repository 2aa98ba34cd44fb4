-- ===== src/Network/Asking.antt =====
-- The host's actions of src/commands/activator/network_host.rs ask the world and change nothing of
-- the journal, its temporary files or the lease under way.
use sower.Prelude.{Text, List}
use sower.Policy.{Policy}
use sower.Network.Lease.{Lease}
use sower.Network.Os.{Env, Op, World}
use sower.Network.Logic.{Keeps, Unasked, Keeps-ask, keeps_rules}
use sower.Network.Host.{
  set_up, command, nft, table_exists, install_guard, links, set_down, purge_selector,
  purge_connections, remove_link, remove_resources,
}

module _ (env : Env) {P : World → Type 0} (unasked : Unasked P) where
  pub command-Keeps : (program : Text) (args : List Text) → Keeps P (command env program args)
  unfolding command
  command-Keeps program args = Keeps-ask _ _ (unasked (Op.command program args))

  pub nft-Keeps : (script : Text) → Keeps P (nft env script)
  unfolding nft
  nft-Keeps script = Keeps-ask _ _ (unasked (Op.nft script))

  ruleset commands = (keeps_rules, command-Keeps, nft-Keeps)

  pub table_exists-Keeps : (family name : Text) → Keeps P (table_exists env family name)
  unfolding table_exists
  table_exists-Keeps family name = search commands depth 15

  pub install_guard-Keeps :
      (policy : Policy) (lease : Lease) → Keeps P (install_guard env policy lease)
  unfolding install_guard
  install_guard-Keeps policy lease = search (commands, table_exists-Keeps) depth 15

  pub links-Keeps : Keeps P (links env)
  unfolding links
  links-Keeps = search commands

  pub set_down-Keeps : (lease : Lease) → Keeps P (set_down env lease)
  unfolding set_down
  set_down-Keeps lease = search (commands, links-Keeps) depth 15

  purge_selector-Keeps : (address selector : Text) → Keeps P (purge_selector env address selector)
  unfolding purge_selector
  purge_selector-Keeps address selector = search commands depth 15

  pub purge_connections-Keeps : (lease : Lease) → Keeps P (purge_connections env lease)
  unfolding purge_connections
  purge_connections-Keeps lease = search (keeps_rules, purge_selector-Keeps) depth 15

  remove_link-Keeps : (lease : Lease) → Keeps P (remove_link env lease)
  unfolding remove_link
  remove_link-Keeps lease = search (commands, set_down-Keeps, links-Keeps) depth 20

  pub remove_resources-Keeps : (lease : Lease) → Keeps P (remove_resources env lease)
  unfolding remove_resources
  remove_resources-Keeps lease =
      search (commands, remove_link-Keeps, purge_connections-Keeps, table_exists-Keeps) depth 20

  pub set_up-Keeps : (lease : Lease) → Keeps P (set_up env lease)
  unfolding set_up
  set_up-Keeps lease = search (commands, links-Keeps) depth 20
