-- ===== src/Kernel/Run/Settled.antt =====
-- kernel/mod.rs: a run keeps the charge of the session equal to what its processes cost.
use wasmux.Prelude.{
  ℕ, ◌≡◌, refl, ap, inl, inr, arith, Bool, true, Option, some, List, [], ◌∷◌, ◌==◌, ℤ, pos, Result,
  ok, err, get_elem?, Bool-cases, Option-cases,
}
use wasmux.Shared.{Limits, add_u64, release_memory}
use wasmux.Process.{set_exit}
use wasmux.Ctx.{Ctx, Fault}
use wasmux.Syscall.Memory.Charge.{IsCharged, IsMatched}
use wasmux.Syscall.Signals.{Outcome, dispatch, conclude, interrupted, raise_signal_flag}
use wasmux.Syscall.Signals
use wasmux.Syscall.Streams.Quiet.{IsQuiet, quiet, read_bytes-IsQuiet, write_bytes-IsQuiet}
use wasmux.Kernel.{Kernel, World, Proc, ExecState, put_proc, enter, leave, remove_at}
use wasmux.Kernel.Start.{start}
use wasmux.Kernel.Finish.{replace_instance, replace_by}
use wasmux.Kernel.Run.{Budget, Reading, unpark, why_idle, park, run}
use wasmux.Kernel.Run.Loop.{Keeps, run-keeps}
use wasmux.Kernel.Run.Local.{Local}
use wasmux.Kernel.Run.Steps.{step_and_park-keeps}
use wasmux.Kernel.Run.Charge.{
  IsSettled, cost, cost-set, cost-remove_at, move_back-IsSettled, start-IsSettled,
  start_pending-IsSettled, finish-IsSettled,
}

module _ {F : Type 0} where
  finish-IsQuiet : (c : Ctx F) → IsQuiet c (Signals.finish c)
  unfolding Signals.finish raise_signal_flag
  finish-IsQuiet c = elim (Bool-cases (c.signal_flag == 0)) [
    | inl e ↦
        rw (Signals.finish, raise_signal_flag, e)
          (record { used = refl; limits = refl; grown = refl })
    | inr e ↦
        rw (Signals.finish, raise_signal_flag, e)
          (record { used = refl; limits = refl; grown = refl })
  ]

  -- The end of a call changes no charge.
  conclude-IsQuiet : (c : Ctx F) (r : Result Fault ℤ) → IsQuiet c (conclude (c, r)).0
  unfolding conclude
  conclude-IsQuiet c (ok v) = finish-IsQuiet c
  conclude-IsQuiet c (err (Fault.errno e)) = finish-IsQuiet c
  conclude-IsQuiet c (err Fault.block) = elim (Bool-cases (interrupted c)) [
    | inl e ↦ rw (conclude, e) (finish-IsQuiet c)
    | inr e ↦ rw (conclude, e) (quiet c)
  ]
  conclude-IsQuiet c (err (Fault.exit status)) = quiet c
  conclude-IsQuiet c (err Fault.exec) = quiet c

  -- What a context charges, it keeps in order: `IsMatched`, from where it is in order.
  abbrev pub Matches : Ctx F → Ctx F → Type 0
  Matches c c' = IsCharged c → IsMatched c c'

  quiet-Matches : (c c' : Ctx F) → IsQuiet c c' → Matches c c'
  quiet-Matches c c' q h =
      let l : c'.shared.limits.memory ≡ c.shared.limits.memory =
        ap (λ (x : Limits). x.memory) q.limits in
      record {
        charged = record {
          within = omega (arith, q.used, l, h);
          covers = omega (arith, q.used, q.grown, h);
          fits = omega (arith, l, h);
        };
        equal = omega (arith, q.used, q.grown);
      }

module _ {F I M W : Type 0} (w : World F I M W) where
  replace-IsSettled :
      (k : Kernel F I W) (index : ℕ) → IsSettled k → IsSettled (replace_instance w k index).0
  unfolding replace_instance replace_by release_memory set_exit
  replace-IsSettled k index v = elim (Option-cases (get_elem? k.procs index)) [
    | inl e ↦ rw (replace_instance, e) v
    | inr (p, e) ↦ elim (Option-cases p.ctx.exec_request) [
      | inl r ↦ rw (replace_instance, e, r) v
      | inr (s, r) ↦
          let k₁ : Kernel F I W = record k {
            procs = remove_at k.procs index;
            shared = release_memory k.shared (add_u64 p.charged p.ctx.grown);
          } in
          let gone = cost-remove_at k.procs index p e in
          let v' =
            start-IsSettled w k₁ s (record {
              exact = omega (arith, v, gone);
              within = omega (arith, v);
              fits = v.fits;
            }) in
          elim (Option-cases (start w k₁ s).1) [
            | inl f ↦
                rw (replace_instance, e, r, replace_by, f)
                  (move_back-IsSettled (start w k₁ s).0 index v')
            | inr (x, f) ↦
                rw (replace_instance, e, r, replace_by, f)
                  (record { exact = v'.exact; within = v'.within; fits = v'.fits })
          ]
    ]
  ]

-- What the guest and `handle` have to do with the charge: keep it in order, from where it is.
pub record IsHonest {F I M W : Type 0} (w : World F I M W) : Type 0 where
  pub on_run : (i : I) (c : Ctx F) (e : ExecState) → Matches c (w.run_start i c e).1.0
  pub on_handle : (number : ℤ) (args : List ℤ) (c : Ctx F) → Matches c (w.handle number args c).0

module _ {F I M W : Type 0} (w : World F I M W) (honest : IsHonest w) where
  Matches-trans : (a b c : Ctx F) → Matches a b → Matches b c → Matches a c
  Matches-trans a b c f g h =
      let x = f h in
      let y = g x.charged in record { charged = y.charged; equal = omega (arith, x.equal, y.equal) }

  dispatch-Matches :
      (number : ℤ) (args : List ℤ) (c : Ctx F) → Matches c (dispatch (w.handle number args) c).0
  unfolding dispatch
  dispatch-Matches number args c =
      let c' : Ctx F = record c {
        shared = record (c.shared) { syscalls = add_u64 c.shared.syscalls 1 };
      } in
      let (d, r) = w.handle number args c' in
      Matches-trans c c' (conclude (d, r)).0
        (quiet-Matches c c' (record { used = refl; limits = refl; grown = refl }))
        (Matches-trans c' d (conclude (d, r)).0 (honest.on_handle number args c')
          (quiet-Matches d (conclude (d, r)).0 (conclude-IsQuiet d r)))

  advance-IsSettled :
      (k : Kernel F I W) (index : ℕ) (p p' : Proc F I W)
      → IsSettled k
      → get_elem? k.procs index ≡ some p
      → Matches (enter k p) p'.ctx
      → p'.charged ≡ p.charged
      → IsSettled (put_proc (leave k p'.ctx) index p')
  advance-IsSettled k index p p' v e later same =
      let m = later (record {
        within = v.within;
        covers = omega (arith, v, cost-remove_at k.procs index p e);
        fits = v.fits;
      }) in
      record {
        exact = omega (arith, v, m.equal, same, cost-set k.procs index p p' e);
        within = m.charged.within;
        fits = m.charged.fits;
      }

  park-IsSettled :
      (k : Kernel F I W) (index : ℕ) (external : Bool)
      → IsSettled k
      → IsSettled (park k index external)
  park-IsSettled k index external v = elim (Option-cases (get_elem? k.procs index)) [
    | inl e ↦ rw (park, e) v
    | inr (p, e) ↦ elim (Bool-cases external) [
      | inl b ↦
          rw (park, e, b)
            (record {
              exact = omega (arith, v, cost-set k.procs index p (record p { parked = true }) e);
              within = v.within;
              fits = v.fits;
            })
      | inr b ↦ rw (park, e, b) v
    ]
  ]

  cost-unpark : (procs : List (Proc F I W)) → cost (unpark procs) ≡ cost procs
  unfolding cost unpark
  cost-unpark [] = refl
  cost-unpark (p ∷ procs) = omega (arith, cost-unpark procs)

  why_idle-IsSettled : (k : Kernel F I W) → IsSettled k → IsSettled (why_idle k).0
  unfolding why_idle
  why_idle-IsSettled k v = elim (Bool-cases k.shared.vfs_pending) [
    | inl e ↦ rw (why_idle, e) (record { exact = v.exact; within = v.within; fits = v.fits })
    | inr e ↦ elim (Bool-cases k.shared.host_pending) [
      | inl h ↦ rw (why_idle, e, h) (record { exact = v.exact; within = v.within; fits = v.fits })
      | inr h ↦ rw (why_idle, e, h) (record { exact = v.exact; within = v.within; fits = v.fits })
    ]
  ]

  Settled-Local : Local w IsSettled Matches
  Settled-Local = record {
    same = λ c. quiet-Matches c c (quiet c);
    trans = Matches-trans;
    memory = λ c m. quiet-Matches c _ (record { used = refl; limits = refl; grown = refl });
    advance = advance-IsSettled;
    on_replace = λ k index v. replace-IsSettled w k index v;
    on_stderr = λ k b v. record { exact = v.exact; within = v.within; fits = v.fits };
    on_pending = λ k v. record { exact = v.exact; within = v.within; fits = v.fits };
    on_host = λ k host v. record { exact = v.exact; within = v.within; fits = v.fits };
    on_park = λ k index external v. park-IsSettled k index external v;
    on_run = honest.on_run;
    on_dispatch = dispatch-Matches;
    on_read = λ c n. quiet-Matches c _ (read_bytes-IsQuiet w.files w.mounts w.seed c (pos 0) n);
    on_write = λ c fd bytes.
        quiet-Matches c _ (write_bytes-IsQuiet w.files w.mounts w.seed c (pos fd) bytes);
  }

  Settled-Keeps : (rounds : ℕ) → Keeps w rounds IsSettled
  Settled-Keeps rounds = record {
    on_unpark = λ k v. record {
      exact = omega (arith, v, cost-unpark k.procs);
      within = v.within;
      fits = v.fits;
    };
    on_start = λ k v. start_pending-IsSettled w k v;
    on_step = λ k index v. step_and_park-keeps w IsSettled Matches Settled-Local rounds k index v;
    on_finish = λ k index status v. finish-IsSettled k index status v;
    on_status = λ k status v. record { exact = v.exact; within = v.within; fits = v.fits };
    on_idle = λ k v. why_idle-IsSettled k v;
  }

  -- Where the guest and `handle` keep the charge of the session in step with what their process has
  -- grown by, a run keeps the charge of the session equal to what its processes were charged when
  -- they started and have grown by since, and within the session's limit, which has to be below the
  -- largest `u64`. It holds whatever the run does: processes that start, that cannot start, that are
  -- replaced, that end, or that are killed at the deadline.
  pub run-IsSettled :
      (rounds : ℕ) (deadline : Option ℕ) (allowed : Budget) (readings : List Reading)
      (k : Kernel F I W)
      → IsSettled k
      → IsSettled (run w rounds deadline allowed readings k).0
  run-IsSettled rounds deadline allowed readings k v =
      run-keeps w rounds IsSettled (Settled-Keeps rounds) deadline allowed readings k v
