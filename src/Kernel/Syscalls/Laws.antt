-- ===== src/Kernel/Syscalls/Laws.antt =====
-- What the system call table keeps.
use quark_kernel.Base.{
  ℕ, ◌≤◌, ◌≡◌, ◌≢◌, refl, inl, inr, Bool-cases, not-==→ne, ltb, ◌==◌, not, ◌&&◌, ◌||◌, true, none,
  some, arith, lt→ltb,
}
use quark_kernel.Base.Fault.{Ensures, ensures}
use quark_kernel.Avl.{avl_get}
use quark_kernel.Status.{enone, eoutofbounds, einvalidarg, edoesntexist, enullptr}
use quark_kernel.Kernel.State.{Kernel, Syscall, null, put, to_key}
use quark_kernel.Kernel.Syscalls.{max_syscall_id, is_negative, is_null, syscall_at, set_syscall}

-- Every system call that is defined takes at most three arguments, and has a function.
abbrev pub IsTable : (ℕ → Syscall) → Type 0
IsTable table =
    (id : ℕ) → (table id).defined ≡ true → ((table id).arg_count ≤ 3) × ((table id).func_ptr ≢ null)

-- What `set_syscall` leaves: a table of that kind, and the old state where it reports an error.
abbrev pub Kept : Kernel → ℕ × Kernel → Type 0
Kept k r = IsTable r.1.syscall_table × (r.0 ≢ enone → r.1 ≡ k)

refused : (k : Kernel) (status : ℕ) → IsTable k.syscall_table → Ensures (Kept k) (some (status, k))
refused k status h = ensures (h, λ ne. refl)

put-IsTable :
    (table : ℕ → Syscall) (id : ℕ) (entry : Syscall)
    → IsTable table
    → entry.arg_count ≤ 3
    → entry.func_ptr ≢ null
    → IsTable (put table id entry)
put-IsTable table id entry h few present i = elim (Bool-cases (i == id)) [
  | inl e ↦ rw e (λ d. (few, present))
  | inr e ↦ rw e (h i)
]

-- For every id but 256 `set_syscall` runs inside the table; a table of functions of at most three
-- arguments stays one, and nothing changes where an error is reported.
pub set_syscall-Kept :
    (k : Kernel) (id arg_count pid func_ptr : ℕ)
    → IsTable k.syscall_table
    → id ≢ max_syscall_id
    → Ensures (Kept k) (set_syscall id arg_count pid func_ptr k)
unfolding set_syscall syscall_at
set_syscall-Kept k id arg_count pid func_ptr h ne =
    elim (Bool-cases (is_negative id || ltb max_syscall_id id)) [
      | inl e ↦ rw e (refused k eoutofbounds h)
      | inr e ↦
          rw (e, lt→ltb id max_syscall_id (ground (arith, e, ne)))
            (elim (Bool-cases (k.syscall_table id).defined) [
              | inl d ↦ rw d (refused k einvalidarg h)
              | inr d ↦ rw d (elim (Bool-cases (is_negative arg_count || ltb 3 arg_count)) [
                | inl a ↦ rw a (refused k einvalidarg h)
                | inr a ↦
                    rw a
                      (elim (Bool-cases
                        (not (pid == 0) && is_null (avl_get k.process_table (to_key pid)))) [
                          | inl p ↦ rw p (refused k edoesntexist h)
                          | inr p ↦ rw p (elim (Bool-cases (func_ptr == null)) [
                            | inl f ↦ rw f (refused k enullptr h)
                            | inr f ↦ rw f (
                                ensures (
                                  put-IsTable k.syscall_table id _ h (ground (arith, a))
                                      (not-==→ne func_ptr null f),
                                  λ z. absurd (z refl),
                                ))
                          ])
                        ])
              ])
            ])
    ]

-- The id 256 passes the test of `set_syscall`, and the code accesses the table past its end.
pub set_syscall-past_table :
    (k : Kernel) (arg_count pid func_ptr : ℕ)
    → set_syscall max_syscall_id arg_count pid func_ptr k ≡ none
unfolding set_syscall syscall_at
set_syscall-past_table k arg_count pid func_ptr = refl
