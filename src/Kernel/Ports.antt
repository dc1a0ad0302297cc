-- ===== src/Kernel/Ports.antt =====
-- Ports: src/kernel.c, from `kernel_create_port` to `kernel_get_port_owner`.
pub mod Laws
use quark_kernel.Base.{ℕ, Bool, true, false, not, Option, none, some, ◌==◌, if◌then◌else◌}
use quark_kernel.Avl.{avl_get, avl_insert, avl_remove}
use quark_kernel.Status.{enone, eexists, edoesntexist, eperm}
use quark_kernel.Kernel.State.{Kernel, Process, Port, null, put, to_key}
use quark_kernel.Kernel.Monad.{
  M, pure, fault, ◌>>=◌, ◌>>◌, read, modify, lift, process_at, port_at, if_found,
}

-- `port` is what the first `kmalloc` returns, and `node` says whether that of the tree's node
-- returns memory; the code writes through both unchecked.
unfoldable pub kernel_create_port : (port : ℕ) (node : Bool) → ℕ → M ℕ
kernel_create_port port node id = do
  k ← read
  let create : M ℕ = do
    process ← process_at k.active_process
    if port == null then fault else pure tt
    modify λ k. record k {
      ports = put k.ports port (some (record { id = id; owner_pid = process.pid }));
    }
    table ← lift (avl_insert node k.port_table (to_key id) port)
    modify λ k. record k { port_table = table }
    pure enone
  if_found (avl_get k.port_table (to_key id)) (λ p. pure eexists) create

unfoldable pub kernel_remove_port : ℕ → M ℕ
kernel_remove_port id = do
  k ← read
  let remove : ℕ → M ℕ = λ p. do
    table ← lift (avl_remove k.port_table (to_key id))
    modify λ k. record k { port_table = table; ports = put k.ports p none }
    pure enone
  let found : ℕ → M ℕ = λ p. do
    port ← port_at p
    process ← process_at k.active_process
    if not (port.owner_pid == process.pid) then pure eperm else remove p
  if_found (avl_get k.port_table (to_key id)) found (pure edoesntexist)

unfoldable pub kernel_get_port_owner : ℕ → M ℕ
kernel_get_port_owner id = do
  k ← read
  let found : ℕ → M ℕ = λ p. do port ← port_at p; pure port.owner_pid
  if_found (avl_get k.port_table (to_key id)) found (pure 0)
