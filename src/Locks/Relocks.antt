-- ===== src/Locks/Relocks.antt =====
-- What comes of the functions that lock the mutex again while they have it, and of callbacks that
-- call the manager.
use open_ddw.Base.{ℕ, ◌≡◌, inl, inr, refl, ◌≢◌, Bool, true, false, [], ◌∷◌, arith}
use open_ddw.Locks.{Program, finish, lock, both, shared, exclusive, Mutex}
use open_ddw.Locks.Steps.{
  Step, Reach, lock_shared, lock_exclusive, looks, holds, first, second, begin, next,
}
use open_ddw.Locks.Calls.{
  get_program, get_reader_program, create_publisher_program, read_callbacks_program,
  replace_filter_params_program, add_callback_program,
}
use open_ddw.Locks.Clients.{Call, Client, call_program, client_program, all_clients, locks_once}

-- No thread can go on, and not all have ended.
abbrev pub IsStuck : Bool → Mutex → Program → Type 0
IsStuck beside x p = (p ≢ finish) × ((y : Mutex) (q : Program) → ¬ Step beside x p y q)

abbrev one_reader : Mutex
one_reader = record { readers = 1; writers = 0 }

shared-waits : {x y : Mutex} {p q : Program} → Step false x (lock shared p) y q → x.readers ≡ 0
shared-waits (lock_shared w (inl e)) = absurd (cc)
shared-waits (lock_shared w (inr r)) = r

exclusive-waits :
    {beside : Bool} {x y : Mutex} {p q : Program}
    → Step beside x (lock exclusive p) y q
    → x.readers ≡ 0
exclusive-waits (lock_exclusive w r) = r

finish-waits : {beside : Bool} {x y : Mutex} {q : Program} → ¬ Step beside x finish y q
finish-waits s = elim s [ ]

-- A reader that locks shared again, and a writer that waits for it.
abbrev reader_and_writer : Program → Program → Program
reader_and_writer p q = both (lock shared p) (both (lock exclusive q) finish finish) finish

reader_and_writer-waits :
    {x y : Mutex} {p q r : Program} → Step false x (reader_and_writer p q) y r → x.readers ≡ 0
reader_and_writer-waits (first s) = shared-waits s
reader_and_writer-waits (second (first s)) = exclusive-waits s
reader_and_writer-waits (second (second s)) = absurd (finish-waits s)

reader_and_writer-IsStuck : (p q : Program) → IsStuck false one_reader (reader_and_writer p q)
reader_and_writer-IsStuck p q =
    ((cc), λ y r s. let e = reader_and_writer-waits s in absurd (omega arith))

abbrev pub GetsStuck : Bool → Program → Type 0
GetsStuck beside start =
    (n : ℕ) × (x : Mutex) × (p : Program) × Reach true start n x p × IsStuck beside x p

two-GetsStuck :
    {start p q : Program} {n : ℕ}
    → Reach true start n one_reader (reader_and_writer p q)
    → GetsStuck false start
two-GetsStuck {p} {q} {n} r =
    (n, one_reader, reader_and_writer p q, r, reader_and_writer-IsStuck p q)

-- A thread that calls `addCallback` or `replaceFilterParams`, the functions that lock the mutex
-- twice, and one that calls `createPublisher` may both wait for ever, where the mutex lets no
-- reader in beside another: the first has it shared and wants it shared once more, the second
-- wants it exclusively.
pub relocks-GetsStuck :
    (c : Call) (c₁ c₂ d₁ d₂ : Client)
    → locks_once c ≡ false
    → GetsStuck false
        (all_clients (Client.call c c₁ c₂ ∷ Client.call Call.create_publisher d₁ d₂ ∷ []))
unfolding all_clients client_program call_program add_callback_program replace_filter_params_program
    create_publisher_program get_program get_reader_program
relocks-GetsStuck Call.add_callback c₁ c₂ d₁ d₂ h =
    let locked = next begin (first (lock_shared refl (inl refl))) in
    two-GetsStuck (next (next (next locked (first looks)) (first holds)) (first holds))
relocks-GetsStuck Call.replace_filter_params c₁ c₂ d₁ d₂ h =
    let named = next begin (first holds) in
    two-GetsStuck (next named (first (lock_shared refl (inl refl))))
relocks-GetsStuck c c₁ c₂ d₁ d₂ h = absurd (cc)

-- `readCallbacks` calls the callbacks with the lock held: one that calls `createPublisher` of the
-- same manager waits for its own thread for ever, whatever the mutex does with readers and whatever
-- the callback and the caller do after.
pub read_callbacks-GetsStuck :
    (beside : Bool) (after : Bool → Program → Program) (k : Bool → Program)
    → GetsStuck beside (read_callbacks_program (λ p. create_publisher_program (λ b. after b p)) k)
unfolding read_callbacks_program create_publisher_program
read_callbacks-GetsStuck beside after k =
    let locked = next begin (lock_shared refl (inl refl)) in
    let reading = next (next (next locked holds) looks) holds in
    (4, one_reader, _, reading, ((cc), λ y q s. let e = exclusive-waits s in absurd (omega arith)))
