-- ===== src/Signal/Windows.antt =====
-- src/Signal.h on Windows, over the system's events.
use yardstick.Base.{
  ℕ, zero, suc, ◌-◌, ◌*◌, ◌%◌, ◌^◌, ◌<◌, ◌≡◌, refl, ap, ◌∙◌, Bool, true, false, arith,
}
use yardstick.Signal.{wait_limit}

-- `CreateEventW`, `WaitForSingleObject`, which takes milliseconds and says whether the event was
-- signalled, `PulseEvent` and `CloseHandle`. A pulse releases the threads that wait, and leaves an event that
-- nobody waits for as it was created: that is documented.
pub record Events {ℓ} (H : Type ℓ) : Type ℓ where
  pub create_event : (manual_reset initial_state : Bool) → H
  pub wait_for_single_object : H → (milliseconds : ℕ) → Bool × H
  pub pulse_event : H → H
  pub close_handle : H → H
  pub pulse_unheard : pulse_event (create_event true false) ≡ create_event true false

module _ {ℓ} {H : Type ℓ} (os : Events H) where
  -- The constructor, `Wait` and `Post`.
  unfoldable pub new_signal : H
  new_signal = os.create_event true false

  unfoldable pub wait_signal : (microseconds : ℕ) → H → Bool × H
  wait_signal microseconds h = os.wait_for_single_object h (microseconds % 2 ^ 32)

  unfoldable pub post_signal : H → H
  post_signal h = os.pulse_event h

  -- The destructor.
  unfoldable pub delete_signal : H → H
  delete_signal h = os.close_handle h

  abbrev pub posts : ℕ → H → H
  posts zero h = h
  posts (suc n) h = posts n (post_signal h)

  -- Posts that no thread waits for change nothing of a later wait on a new signal.
  pub wait_signal-posts :
      (n microseconds : ℕ)
      → wait_signal microseconds (posts n new_signal) ≡ wait_signal microseconds new_signal
  wait_signal-posts n microseconds = ap (wait_signal microseconds) (unheard n)
    where
      once : post_signal new_signal ≡ new_signal
      once = unfold post_signal new_signal in os.pulse_unheard

      unheard : (n : ℕ) → posts n new_signal ≡ new_signal
      unheard zero = refl
      unheard (suc n) = ap (posts n) once ∙ unheard n

-- How long a wait lasts at most, in nanoseconds.
unfoldable pub wait_limit_windows : (microseconds : ℕ) → ℕ
wait_limit_windows microseconds = microseconds % 2 ^ 32 * 10 ^ 6

-- A wait on Windows lasts up to a thousand times longer than elsewhere, where its microseconds are
-- not the value that means forever.
pub wait_limit_windows-eq :
    (microseconds : ℕ)
    → microseconds < 2 ^ 32 - 1
    → wait_limit_windows microseconds ≡ 1000 * wait_limit microseconds
unfolding wait_limit_windows wait_limit
wait_limit_windows-eq microseconds h = omega arith
