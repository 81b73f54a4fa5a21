-- ===== src/AltRuntime/Fork/Invariant.antt =====
-- What holds after every step of fork in alt_runtime/main.c.
use shadow_stack_llvm.Prelude.{
  ℕ, suc, ◌<◌, ◌≡◌, refl, sym, ap, ◌∙◌, ◌⊎◌, inl, inr, Bool, true, false, not, Option, arith,
}
use shadow_stack_llvm.AltRuntime.Fork.{
  Parent, Child, request, World, before, Alive, alive_closing_read, alive_opening, alive_asking,
  alive_writing, alive_closing_write, Step, real_fork, no_fork, give_up, parent_closes_write,
  parent_reads, parent_reads_end, parent_interrupted, parent_fails_to_read, parent_closes_read,
  child_closes_read, child_opens, child_asks, child_writes_byte, child_closes_write, child_dies,
  Run, called, next,
}

-- The parent does not wait any more.
abbrev pub has_read : Parent → Bool
has_read Parent.closing_read = true
has_read Parent.returned = true
has_read _ = false

abbrev pub has_child : Parent → Bool
has_child Parent.closing_write = true
has_child Parent.reading = true
has_child p = has_read p

abbrev pub has_write_end : Parent → Bool
has_write_end Parent.forking = true
has_write_end Parent.closing_write = true
has_write_end Parent.giving_up = true
has_write_end _ = false

abbrev pub is_unborn : Child → Bool
is_unborn Child.unborn = true
is_unborn _ = false

abbrev pub is_alive : Child → Bool
is_alive Child.unborn = false
is_alive Child.returned = false
is_alive Child.dead = false
is_alive _ = true

abbrev has_asked : Child → Bool
has_asked Child.writing = true
has_asked Child.closing_write = true
has_asked Child.returned = true
has_asked _ = false

module _ (signals : Bool) (opened : Option ℕ) (p_tgid p_pid : ℕ) where
  pub record Inv (w : World) : Type 0 where
    pub asks : has_asked w.child ≡ true → w.asked ≡ request opened p_tgid p_pid
    pub opens : w.child ≡ Child.asking → w.shadow_fd ≡ opened
    pub sent : 0 < w.bytes → w.asked ≡ request opened p_tgid p_pid
    pub waited :
        w.piped ≡ true
        → signals ≡ false
        → has_read w.parent ≡ true
        → (w.asked ≡ request opened p_tgid p_pid) ⊎ (w.child ≡ Child.dead)
    pub child_end : w.child_writes ≡ is_alive w.child
    pub parent_end : w.parent_writes ≡ has_write_end w.parent
    pub born : is_unborn w.child ≡ not (has_child w.parent)

  before-Inv : (piped : Bool) (fd : Option ℕ) → Inv (before piped fd)
  before-Inv piped fd = record {
    asks = λ e. cc;
    opens = λ e. cc;
    sent = λ e. absurd (omega arith);
    waited = λ m q e. cc;
    child_end = refl;
    parent_end = refl;
    born = refl;
  }

  -- A child that is neither alive nor unborn has asked or is dead.
  ended :
      (c : Child)
      → is_alive c ≡ false
      → is_unborn c ≡ false
      → (has_asked c ≡ true) ⊎ (c ≡ Child.dead)
  ended Child.unborn a u = cc
  ended Child.closing_read a u = cc
  ended Child.opening a u = cc
  ended Child.asking a u = cc
  ended Child.writing a u = cc
  ended Child.closing_write a u = cc
  ended Child.returned a u = inl refl
  ended Child.dead a u = inr refl

  Alive-born : (c : Child) → Alive c → is_unborn c ≡ false
  Alive-born _ alive_closing_read = refl
  Alive-born _ alive_opening = refl
  Alive-born _ alive_asking = refl
  Alive-born _ alive_writing = refl
  Alive-born _ alive_closing_write = refl

  -- What a child that lives has made sure of when the parent goes on.
  waited-alive :
      (w : World)
      → Inv w
      → is_alive w.child ≡ true
      → w.piped ≡ true
      → signals ≡ false
      → has_read w.parent ≡ true
      → w.asked ≡ request opened p_tgid p_pid
  waited-alive w h alive m q e = elim (h.waited m q e) [ inl asked ↦ asked | inr died ↦ absurd cc ]

  Step-Inv : (w w' : World) → Inv w → Step signals opened p_tgid p_pid w w' → Inv w'
  Step-Inv w w' h (real_fork at) = record {
    asks = λ e. cc;
    opens = λ e. cc;
    sent = h.sent;
    waited = λ m q e. cc;
    child_end = refl;
    parent_end = h.parent_end ∙ ap has_write_end at;
    born = refl;
  }
  Step-Inv w w' h (no_fork at) = record {
    asks = h.asks;
    opens = h.opens;
    sent = h.sent;
    waited = λ m q e. cc;
    child_end = h.child_end;
    parent_end = h.parent_end ∙ ap has_write_end at;
    born = h.born ∙ ap (λ p. not (has_child p)) at;
  }
  Step-Inv w w' h (give_up at) = record {
    asks = h.asks;
    opens = h.opens;
    sent = h.sent;
    waited = λ m q e. cc;
    child_end = h.child_end;
    parent_end = refl;
    born = h.born ∙ ap (λ p. not (has_child p)) at;
  }
  Step-Inv w w' h (parent_closes_write at) = record {
    asks = h.asks;
    opens = h.opens;
    sent = h.sent;
    waited = λ m q e. cc;
    child_end = h.child_end;
    parent_end = refl;
    born = h.born ∙ ap (λ p. not (has_child p)) at;
  }
  Step-Inv w w' h (parent_reads at piped some_bytes) = record {
    asks = h.asks;
    opens = h.opens;
    sent = λ e. h.sent some_bytes;
    waited = λ m q e. inl (h.sent some_bytes);
    child_end = h.child_end;
    parent_end = h.parent_end ∙ ap has_write_end at;
    born = h.born ∙ ap (λ p. not (has_child p)) at;
  }
  Step-Inv w w' h (parent_reads_end at piped none_left parent_closed child_closed) =
      let is_born : is_unborn w.child ≡ false = h.born ∙ ap (λ p. not (has_child p)) at in
      let waited : (w.asked ≡ request opened p_tgid p_pid) ⊎ (w.child ≡ Child.dead) =
        elim (ended w.child (sym h.child_end ∙ child_closed) is_born) [
          | inl asked ↦ inl (h.asks asked)
          | inr died ↦ inr died
        ] in
      record {
        asks = h.asks;
        opens = h.opens;
        sent = h.sent;
        waited = λ m q e. waited;
        child_end = h.child_end;
        parent_end = h.parent_end ∙ ap has_write_end at;
        born = is_born;
      }
  Step-Inv w w' h (parent_interrupted at signal) = record {
    asks = h.asks;
    opens = h.opens;
    sent = h.sent;
    waited = λ m q e. absurd cc;
    child_end = h.child_end;
    parent_end = h.parent_end ∙ ap has_write_end at;
    born = h.born ∙ ap (λ p. not (has_child p)) at;
  }
  Step-Inv w w' h (parent_fails_to_read at unpiped) = record {
    asks = h.asks;
    opens = h.opens;
    sent = h.sent;
    waited = λ m q e. absurd cc;
    child_end = h.child_end;
    parent_end = h.parent_end ∙ ap has_write_end at;
    born = h.born ∙ ap (λ p. not (has_child p)) at;
  }
  Step-Inv w w' h (parent_closes_read at) = record {
    asks = h.asks;
    opens = h.opens;
    sent = h.sent;
    waited = λ m q e. h.waited m q (ap has_read at);
    child_end = h.child_end;
    parent_end = h.parent_end ∙ ap has_write_end at;
    born = h.born ∙ ap (λ p. not (has_child p)) at;
  }
  Step-Inv w w' h (child_closes_read at) = record {
    asks = λ e. cc;
    opens = λ e. cc;
    sent = h.sent;
    waited = λ m q e. inl (waited-alive w h (ap is_alive at) m q e);
    child_end = h.child_end ∙ ap is_alive at;
    parent_end = h.parent_end;
    born = sym (ap is_unborn at) ∙ h.born;
  }
  Step-Inv w w' h (child_opens at) = record {
    asks = λ e. cc;
    opens = λ e. refl;
    sent = h.sent;
    waited = λ m q e. inl (waited-alive w h (ap is_alive at) m q e);
    child_end = h.child_end ∙ ap is_alive at;
    parent_end = h.parent_end;
    born = sym (ap is_unborn at) ∙ h.born;
  }
  Step-Inv w w' h (child_asks at) =
      let asked : request w.shadow_fd p_tgid p_pid ≡ request opened p_tgid p_pid =
        ap (λ fd. request fd p_tgid p_pid) (h.opens at) in
      record {
        asks = λ e. asked;
        opens = λ e. cc;
        sent = λ e. asked;
        waited = λ m q e. inl asked;
        child_end = h.child_end ∙ ap is_alive at;
        parent_end = h.parent_end;
        born = sym (ap is_unborn at) ∙ h.born;
      }
  Step-Inv w w' h (child_writes_byte at) = record {
    asks = λ e. h.asks (ap has_asked at);
    opens = λ e. cc;
    sent = λ e. h.asks (ap has_asked at);
    waited = λ m q e. inl (waited-alive w h (ap is_alive at) m q e);
    child_end = h.child_end ∙ ap is_alive at;
    parent_end = h.parent_end;
    born = sym (ap is_unborn at) ∙ h.born;
  }
  Step-Inv w w' h (child_closes_write at) = record {
    asks = λ e. h.asks (ap has_asked at);
    opens = λ e. cc;
    sent = h.sent;
    waited = λ m q e. inl (waited-alive w h (ap is_alive at) m q e);
    child_end = refl;
    parent_end = h.parent_end;
    born = sym (ap is_unborn at) ∙ h.born;
  }
  Step-Inv w w' h (child_dies alive) = record {
    asks = λ e. cc;
    opens = λ e. cc;
    sent = h.sent;
    waited = λ m q e. inr refl;
    child_end = refl;
    parent_end = h.parent_end;
    born = sym (Alive-born w.child alive) ∙ h.born;
  }

  pub Run-Inv : (fd : Option ℕ) (n : ℕ) (w : World) → Run signals opened fd p_tgid p_pid n w → Inv w
  Run-Inv fd _ _ (called piped) = before-Inv piped fd
  Run-Inv fd (suc n) w' (next {w = w} run step) = Step-Inv w w' (Run-Inv fd n w run) step
