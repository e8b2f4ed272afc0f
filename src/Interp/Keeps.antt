-- ===== src/Interp/Keeps.antt =====
-- Invariants of the store under actions, one rule for each way to build an action.
use uasm.Base.{ℕ, Bool, true, false, List, [], ◌∷◌, ok, err, if◌then◌else◌, switch, one_of, Ensures}
use uasm.Runtime.{Run}
use uasm.Memory.Defs.{Store}
use uasm.Frame.{Frame}
use uasm.Interp.Machine.{
  Machine, Exec, ◌>>=◌, pure, lift, get_frame, put_frame, get_store, put_store, change, change_with,
  query,
}

module _ (P : Store → Type 0) where
  abbrev pub Leaves : {A : Type 0} → Run (A × Machine) → Type 0
  Leaves = Ensures (λ x. P x.1.store)

  abbrev pub LeavesStore : Run Store → Type 0
  LeavesStore = Ensures P

  abbrev pub LeavesWith : {A : Type 0} → Run (A × Store) → Type 0
  LeavesWith = Ensures (λ x. P x.1)

  -- `act` keeps `P` of the store, where it returns.
  pub record Keeps {A : Type 0} (act : Exec A) : Type 0 where
    pub at : (m : Machine) → P m.store → Leaves (act m)

  pub data KeepsRows {A : Type 0} : List (List ℕ × Exec A) → Type 0 where
    end_of_rows : KeepsRows []
    row :
        {labels : List ℕ} {body : Exec A} {rest : List (List ℕ × Exec A)}
        → Keeps body
        → KeepsRows rest
        → KeepsRows ((labels, body) ∷ rest)

module _ {P : Store → Type 0} where
  pub Keeps-pure : {A : Type 0} (a : A) → Keeps P (pure a)
  unfolding pure
  Keeps-pure a = record { at = λ m h. h }

  pub Keeps-lift : {A : Type 0} (r : Run A) → Keeps P (lift r)
  unfolding lift
  Keeps-lift (err e) = record { at = λ m h. tt }
  Keeps-lift (ok a) = record { at = λ m h. h }

  pub Keeps-get_frame : Keeps P get_frame
  unfolding get_frame
  Keeps-get_frame = record { at = λ m h. h }

  pub Keeps-put_frame : (f : Frame) → Keeps P (put_frame f)
  unfolding put_frame
  Keeps-put_frame f = record { at = λ m h. h }

  pub Keeps-if :
      {A : Type 0} (b : Bool) (x y : Exec A) → Keeps P x → Keeps P y → Keeps P (if b then x else y)
  Keeps-if true x y kx ky = kx
  Keeps-if false x y kx ky = ky

  -- One way to go on for each outcome of the first action.
  Leaves-next :
      {A B : Type 0} (r : Run (A × Machine)) (next : A → Exec B)
      → Leaves P r
      → ((a : A) → Keeps P (next a))
      → Leaves P (elim r [ err e ↦ err e | ok (a, m') ↦ next a m' ])
  Leaves-next (err e) next h kn = tt
  Leaves-next (ok (a, m')) next h kn = (kn a).at m' h

  pub Keeps-bind :
      {A B : Type 0} (act : Exec A) (next : A → Exec B)
      → Keeps P act
      → ((a : A) → Keeps P (next a))
      → Keeps P (act >>= next)
  unfolding ◌>>=◌
  Keeps-bind act next ka kn = record { at = λ m h. Leaves-next (act m) next (ka.at m h) kn }

  pub Keeps-query : {A : Type 0} (f : Store → Run A) → Keeps P (query f)
  unfolding query get_store ◌>>=◌ lift
  Keeps-query f = record { at = λ m h. (Keeps-lift (f m.store)).at m h }

  pub Keeps-change :
      (f : Store → Run Store) → ((s : Store) → P s → LeavesStore P (f s)) → Keeps P (change f)
  unfolding change get_store put_store ◌>>=◌ lift
  Keeps-change f kf = record { at = λ m h. changed m (f m.store) (kf m.store h) }
    where
      changed :
          (m : Machine) (r : Run Store) → LeavesStore P r → Leaves P (((lift r) >>= put_store) m)
      changed m (err e) h = tt
      changed m (ok s) h = h

  pub Keeps-change_with :
      {A : Type 0} (f : Store → Run (A × Store))
      → ((s : Store) → P s → LeavesWith P (f s))
      → Keeps P (change_with f)
  unfolding change_with get_store put_store ◌>>=◌ lift pure
  Keeps-change_with {A} f kf = record { at = λ m h. changed m (f m.store) (kf m.store h) }
    where
      changed :
          (m : Machine) (r : Run (A × Store))
          → LeavesWith P r
          → Leaves P ((lift r >>= λ (a, s'). put_store s' >>= λ _. pure a) m)
      changed m (err e) h = tt
      changed m (ok (a, s)) h = h

  -- `switch` keeps it where each of its rows and the default do.
  pub Keeps-switch :
      {A : Type 0} (label : ℕ) (rows : List (List ℕ × Exec A)) (default : Exec A)
      → KeepsRows P rows
      → Keeps P default
      → Keeps P (switch label rows default)
  unfolding switch
  Keeps-switch label [] default k kd = kd
  Keeps-switch label ((labels, body) ∷ rest) default (row k ks) kd =
      Keeps-if (one_of label labels) body (switch label rest default) k
        (Keeps-switch label rest default ks kd)
