-- ===== src/SandeshClientSm/Transit.antt =====
-- How the transitions of the client's machine keep its invariant.
use tf_common.Common.{
  ℕ, ◌<◌, ◌≡◌, ◌≢◌, refl, sym, ap, ◌∙◌, Bool, true, false, Option, none, some, length,
}
use mathlib.Core.Bool.{false≢true}
use tf_common.SandeshClientSm.{
  SmState, SandeshClientSm, Answers, exit_state, enter_state, enter_connect, enter_client_init,
  enter_established, transit, on_idle, transit_to_idle, to_idle, to_idle_from, set_state,
  set_session, start_connect_timer, cancel_connect_timer, start_idle_hold_timer,
  cancel_idle_hold_timer,
}
use tf_common.SandeshClientSm.Valid.{Edge, reset, is_some, has_session, IsValid, Ready, Goes, Opens}

-- A machine between two states: no timer runs.
record Between (m m' : SandeshClientSm) : Type 0 where
  session : m'.session ≡ m.session
  hold : is_some m'.idle_hold_timer ≡ false
  timer : is_some m'.connect_timer ≡ false
  index : length m'.collectors ≢ 0 → m'.collector_index < length m'.collectors

not_running : (t : Option ℕ) → (is_some t ≡ true → false ≡ true) → is_some t ≡ false
not_running none h = refl
not_running (some x) h = sym (h refl)

exit-Between : (from : SmState) (m : SandeshClientSm) → Ready from m → Between m (exit_state from m)
unfolding exit_state cancel_idle_hold_timer cancel_connect_timer
exit-Between SmState.idle m r = record {
  session = refl;
  hold = refl;
  timer = not_running m.connect_timer r.timer;
  index = r.index;
}
exit-Between SmState.disconnect m r = record {
  session = refl;
  hold = not_running m.idle_hold_timer r.hold;
  timer = not_running m.connect_timer r.timer;
  index = r.index;
}
exit-Between SmState.connect m r = record {
  session = refl;
  hold = not_running m.idle_hold_timer r.hold;
  timer = refl;
  index = r.index;
}
exit-Between SmState.client_init m r = record {
  session = refl;
  hold = not_running m.idle_hold_timer r.hold;
  timer = refl;
  index = r.index;
}
exit-Between SmState.established m r = record {
  session = refl;
  hold = not_running m.idle_hold_timer r.hold;
  timer = not_running m.connect_timer r.timer;
  index = r.index;
}

abbrev is_connect : SmState → Bool
is_connect SmState.connect = true
is_connect _ = false

enter_connect-Goes :
    (o : Option ℕ) (m₀ m m' : SandeshClientSm)
    → is_some o ≡ true
    → Between m m'
    → Edge m₀.state SmState.connect
    → Goes m₀ (enter_connect o m')
unfolding enter_connect set_state set_session start_connect_timer
enter_connect-Goes none m₀ m m' e b edge = absurd (false≢true e)
enter_connect-Goes (some x) m₀ m m' e b edge = (
  _,
  refl,
  record {
    edge = edge;
    valid = record {
      session = refl;
      hold = λ h. absurd (false≢true (sym b.hold ∙ h));
      timer = λ h. refl;
      index = b.index;
    };
  },
)

enter_established-Goes :
    (o : Option ℕ) (m₀ m m' : SandeshClientSm)
    → m'.session ≡ o
    → is_some o ≡ true
    → Between m m'
    → Edge m₀.state SmState.established
    → Goes m₀ (enter_established o m')
unfolding enter_established set_state
enter_established-Goes none m₀ m m' s e b edge = absurd (false≢true e)
enter_established-Goes (some x) m₀ m m' s e b edge = (
  _,
  refl,
  record {
    edge = edge;
    valid = record {
      session = ap is_some s;
      hold = λ h. absurd (false≢true (sym b.hold ∙ h));
      timer = λ h. absurd (false≢true (sym b.timer ∙ h));
      index = b.index;
    };
  },
)

-- A transition to a state that needs the session held, or to one that opens a session.
pub transit-Goes :
    (a : Answers) (from next : SmState) (m₀ m : SandeshClientSm)
    → Opens a
    → Ready from m
    → Edge m₀.state next
    → (is_connect next ≡ false → is_some m.session ≡ has_session next)
    → Goes m₀ (transit a from next m)
unfolding transit enter_state set_state enter_client_init start_connect_timer cancel_connect_timer
transit-Goes a from SmState.idle m₀ m opens r edge held =
    let b = exit-Between from m r in
    (
      _,
      refl,
      record {
        edge = edge;
        valid = record {
          session = ap is_some b.session ∙ held refl;
          hold = λ h. refl;
          timer = λ h. absurd (false≢true (sym b.timer ∙ h));
          index = b.index;
        };
      },
    )
transit-Goes a from SmState.disconnect m₀ m opens r edge held =
    let b = exit-Between from m r in
    (
      _,
      refl,
      record {
        edge = edge;
        valid = record {
          session = ap is_some b.session ∙ held refl;
          hold = λ h. absurd (false≢true (sym b.hold ∙ h));
          timer = λ h. absurd (false≢true (sym b.timer ∙ h));
          index = b.index;
        };
      },
    )
transit-Goes a from SmState.connect m₀ m opens r edge held =
    let b = exit-Between from m r in
    enter_connect-Goes (a.create_sm_session (exit_state from m).server) m₀ m (exit_state from m)
      (opens (exit_state from m).server) b edge
transit-Goes a from SmState.client_init m₀ m opens r edge held =
    let b = exit-Between from m r in
    (
      _,
      refl,
      record {
        edge = edge;
        valid = record {
          session = ap is_some b.session ∙ held refl;
          hold = λ h. absurd (false≢true (sym b.hold ∙ h));
          timer = λ h. refl;
          index = b.index;
        };
      },
    )
transit-Goes a from SmState.established m₀ m opens r edge held =
    let b = exit-Between from m r in
    enter_established-Goes (exit_state from m).session m₀ m (exit_state from m) refl
      (ap is_some b.session ∙ held refl) b edge

-- To Idle: the session is given up, with or without the hold timer.
pub transit_to_idle-Goes :
    (from : SmState) (m₀ m : SandeshClientSm)
    → Ready from m
    → Goes m₀ (some (transit_to_idle from m))
unfolding transit_to_idle on_idle set_session cancel_idle_hold_timer set_state
transit_to_idle-Goes from m₀ m r =
    let b = exit-Between from m r in
    (
      _,
      refl,
      record {
        edge = reset;
        valid = record {
          session = refl;
          hold = λ h. refl;
          timer = λ h. absurd (false≢true (sym b.timer ∙ h));
          index = b.index;
        };
      },
    )

to_idle_from-Goes :
    (o : Option ℕ) (from : SmState) (m₀ m : SandeshClientSm)
    → is_some o ≡ true
    → Ready from m
    → Goes m₀ (to_idle_from o from m)
unfolding to_idle_from exit_state on_idle start_idle_hold_timer set_session cancel_idle_hold_timer
    set_state cancel_connect_timer
to_idle_from-Goes none from m₀ m e r = absurd (false≢true e)
to_idle_from-Goes (some x) from m₀ m e r =
    (_, refl, record { edge = reset; valid = leaving from r })
  where
    leaving :
        (from : SmState)
        → Ready from m
        → IsValid (set_state SmState.idle (exit_state from (start_idle_hold_timer (on_idle m))))
    leaving SmState.idle r = record {
      session = refl;
      hold = λ h. refl;
      timer = r.timer;
      index = r.index;
    }
    leaving SmState.disconnect r = record {
      session = refl;
      hold = λ h. refl;
      timer = r.timer;
      index = r.index;
    }
    leaving SmState.connect r = record {
      session = refl;
      hold = λ h. refl;
      timer = λ h. h;
      index = r.index;
    }
    leaving SmState.client_init r = record {
      session = refl;
      hold = λ h. refl;
      timer = λ h. h;
      index = r.index;
    }
    leaving SmState.established r = record {
      session = refl;
      hold = λ h. refl;
      timer = r.timer;
      index = r.index;
    }

pub to_idle-Goes :
    (from : SmState) (m₀ m : SandeshClientSm)
    → is_some m.session ≡ true
    → Ready from m
    → Goes m₀ (to_idle from m)
unfolding to_idle
to_idle-Goes from m₀ m e r = to_idle_from-Goes m.session from m₀ m e r
