-- ===== src/Lkm/Ioctl/Request.antt =====
-- What a request of lkm/core/chrdev_ioctl.c does, and what user space reads afterwards.
use shadow_stack_llvm.Prelude.{
  ℕ, ◌≡◌, refl, sym, subst, ◌⊎◌, inl, inr, true, false, Option, none, some, arith, ◌==◌, Bool-cases,
  Option-cases,
}
use shadow_stack_llvm.Lkm.Errno.{Ret, success, fail, efault, failed}
use shadow_stack_llvm.Lkm.Ioctl.{
  MemParams, ForkParams, PivotParams, Numbers, Copies, User, Api, is_command, check_ioctl_cmd,
  ioctl_shadow_req, ioctl_shadow_free, ioctl_shadow_fork, ioctl_shadow_pivot, reply, request_req,
  request_free, request_fork, request_pivot, chrdev_ioctl,
}
use shadow_stack_llvm.Lkm.Ioctl.Command.{check_ioctl_cmd_lem}

module _ (n : Numbers) (w : User) (api : Api) where
  open w use {U, mem, fork, pivot}
  open api use {State, sa_alloc, sa_free, sa_fork, sa_pivot}

  -- Either the parameters cannot be read, and nothing has changed; or the call is made with them, and
  -- when the request succeeds user space reads the parameters with the call's results in them.
  abbrev pub Answered :
      {P : Type 0} → Copies U P → (P → State → P × State) → ℕ → State → U → Ret × State × U → Type 0
  Answered {P} c call arg s u r =
      ((c.from_user arg u ≡ none) × (r ≡ (fail efault, s, u)))
      ⊎ ((p : P) × (c.from_user arg u ≡ some p)
          × (r.1 ≡ (call p s).1)
          × (((r.0 ≡ success) × (c.from_user arg r.2 ≡ some (call p s).0)) ⊎ (r.0 ≡ fail efault)))

  -- What each command calls, and the parameters afterwards.
  abbrev pub call_req : ℕ → MemParams → State → MemParams × State
  call_req addr p s =
      let (error, addr', s') = sa_alloc addr s in (record { error = error; addr = addr' }, s')

  abbrev pub call_free : MemParams → State → MemParams × State
  call_free p s = let (error, s') = sa_free p.addr s in (record p { error = error }, s')

  abbrev pub call_fork : ForkParams → State → ForkParams × State
  call_fork p s = let (error, s') = sa_fork p.p_tgid p.p_pid s in (record p { error = error }, s')

  abbrev pub call_pivot : PivotParams → State → PivotParams × State
  call_pivot p s =
      let (error, s') = sa_pivot p.rsp p.new_stack_address s in (record p { error = error }, s')

  reply-Answered :
      {P : Type 0} (c : Copies U P) (call : P → State → P × State) (arg : ℕ) (s : State) (u : U)
      (p : P)
      → c.from_user arg u ≡ some p
      → Answered c call arg s u (reply n w api c arg (call p s).0 (call p s).1 u)
  reply-Answered c call arg s u p e = elim (Bool-cases (c.to_user arg (call p s).0 u).0) [
    | inl ok ↦ inr (p, e, refl, inl (rw ok refl, c.from_user-to_user arg (call p s).0 u ok))
    | inr bad ↦ inr (p, e, refl, inr (rw bad refl))
  ]

  -- A request whose parameters come out as `o`.
  abbrev request :
      {P : Type 0}
      → Copies U P
      → (P → State → P × State)
      → ℕ
      → State
      → U
      → Option P
      → Ret × State × U
  request c call arg s u o = elim o [
    | none ↦ (fail efault, s, u)
    | some p ↦ reply n w api c arg (call p s).0 (call p s).1 u
  ]

  -- Every one of the four requests has this form.
  request-Answered :
      {P : Type 0} (c : Copies U P) (call : P → State → P × State) (arg : ℕ) (s : State) (u : U)
      → Answered c call arg s u (request c call arg s u (c.from_user arg u))
  request-Answered {P} c call arg s u = elim (Option-cases (c.from_user arg u)) [
    | inl e ↦ given none e (inl (e, refl))
    | inr (p, e) ↦ given (some p) e (reply-Answered c call arg s u p e)
  ]
    where
      given :
          (o : Option P)
          → c.from_user arg u ≡ o
          → Answered c call arg s u (request c call arg s u o)
          → Answered c call arg s u (request c call arg s u (c.from_user arg u))
      given o e h = subst (λ q. Answered c call arg s u (request c call arg s u q)) (sym e) h

  checked : (cmd : ℕ) → is_command n cmd ≡ true → failed (check_ioctl_cmd n cmd) ≡ false
  checked cmd e = rw (check_ioctl_cmd_lem n cmd, e) refl

  refused : (cmd : ℕ) → is_command n cmd ≡ false → failed (check_ioctl_cmd n cmd) ≡ true
  refused cmd e = rw (check_ioctl_cmd_lem n cmd, e) (ground arith)

  -- chrdev_ioctl of a word that check_ioctl_cmd refuses returns its error and changes nothing. Of any
  -- other word it makes the call that the command names, as Answered says.
  pub chrdev_ioctl_lem :
      (cmd arg addr : ℕ) (s : State) (u : U)
      → let r = chrdev_ioctl n w api cmd arg addr s u in
        ((is_command n cmd ≡ false) × (failed r.0 ≡ true) × (r ≡ (check_ioctl_cmd n cmd, s, u)))
        ⊎ ((cmd ≡ ioctl_shadow_req n) × Answered mem (call_req addr) arg s u r)
        ⊎ ((cmd ≡ ioctl_shadow_free n) × Answered mem call_free arg s u r)
        ⊎ ((cmd ≡ ioctl_shadow_fork n) × Answered fork call_fork arg s u r)
        ⊎ ((cmd ≡ ioctl_shadow_pivot n) × Answered pivot call_pivot arg s u r)
  unfolding chrdev_ioctl request_req request_free request_fork request_pivot is_command
  chrdev_ioctl_lem cmd arg addr s u = elim (Bool-cases (is_command n cmd)) [
    | inr miss ↦ inl (miss, rw (refused cmd miss) (refused cmd miss), rw (refused cmd miss) refl)
    | inl hit ↦ elim (Bool-cases (cmd == ioctl_shadow_req n)) [
      | inl a ↦
          rw (checked cmd hit, a)
            (inr (inl (ground arith, request-Answered mem (call_req addr) arg s u)))
      | inr a ↦ elim (Bool-cases (cmd == ioctl_shadow_free n)) [
        | inl b ↦
            rw (checked cmd hit, a, b)
              (inr (inr (inl (ground arith, request-Answered mem call_free arg s u))))
        | inr b ↦ elim (Bool-cases (cmd == ioctl_shadow_fork n)) [
          | inl c ↦
              rw (checked cmd hit, a, b, c)
                (inr (inr (inr (inl (ground arith, request-Answered fork call_fork arg s u)))))
          | inr c ↦
              let d : (cmd == ioctl_shadow_pivot n) ≡ true = ground (arith, hit) in
              rw (checked cmd hit, a, b, c, d)
                (inr (inr (inr (inr (ground arith, request-Answered pivot call_pivot arg s u)))))
        ]
      ]
    ]
  ]
