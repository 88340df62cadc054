-- ===== src/SafeClient/Subscription.antt =====
-- The subscription that wraps the client's (core/safeclient/client.go).
use near_sffl.Prelude.{
  ℕ, zero, suc, ◌≡◌, refl, ap, ◌∙◌, sym, ==_ne, List, [], ◌∷◌, true, false, arith, if◌then◌else◌,
  elem,
}
use near_sffl.SafeClient.{SafeSubscription, new_safe_subscription, unsubscribe, set_underlying_sub}

-- What may happen to the subscription, in any order.
pub data Use : Type 0 where
  unsubscribing : Use
  replacing : ℕ → Use

unfoldable pub apply_use : Use → SafeSubscription → SafeSubscription
unfolding unsubscribe set_underlying_sub
apply_use unsubscribing s = unsubscribe s
apply_use (replacing sub) s = set_underlying_sub sub s

unfoldable pub apply_uses : List Use → SafeSubscription → SafeSubscription
unfolding apply_use
apply_uses [] s = s
apply_uses (u ∷ us) s = apply_uses us (apply_use u s)

-- The channel of errors is closed exactly when the subscription was unsubscribed, and once.
abbrev pub IsClosedOnce : SafeSubscription → Type 0
IsClosedOnce s = s.closes ≡ (if s.unsubscribed then 1 else 0)

apply_use-IsClosedOnce :
    (u : Use) (s : SafeSubscription) → IsClosedOnce s → IsClosedOnce (apply_use u s)
unfolding apply_use unsubscribe set_underlying_sub
apply_use-IsClosedOnce unsubscribing s h = ground arith
apply_use-IsClosedOnce (replacing sub) s h = h

apply_uses_lem :
    (us : List Use) (s : SafeSubscription) → IsClosedOnce s → IsClosedOnce (apply_uses us s)
unfolding apply_uses
apply_uses_lem [] s h = h
apply_uses_lem (u ∷ us) s h = apply_uses_lem us (apply_use u s) (apply_use-IsClosedOnce u s h)

-- In any order of uses, the channel of errors is closed once if the subscription was unsubscribed,
-- and not at all otherwise, so that the close never panics.
apply_uses-IsClosedOnce :
    (us : List Use) (sub : ℕ) → IsClosedOnce (apply_uses us (new_safe_subscription sub))
unfolding new_safe_subscription
apply_uses-IsClosedOnce us sub = apply_uses_lem us (new_safe_subscription sub) refl

abbrev pub repeat_unsubscribe : ℕ → List Use
repeat_unsubscribe zero = []
repeat_unsubscribe (suc n) = unsubscribing ∷ repeat_unsubscribe n

unsubscribe_again :
    (n : ℕ) (s : SafeSubscription) → s.unsubscribed ≡ true → apply_uses (repeat_unsubscribe n) s ≡ s
unfolding apply_uses apply_use unsubscribe
unsubscribe_again zero s h = refl
unsubscribe_again (suc n) s h =
    ap
      (λ b. apply_uses (repeat_unsubscribe n) (
        if b then s else record s {
          unsubscribed = true;
          closes = suc s.closes;
          dropped = s.underlying ∷ s.dropped;
        }))
      h
    ∙ unsubscribe_again n s h

unsubscribe-unsubscribed : (s : SafeSubscription) → (unsubscribe s).unsubscribed ≡ true
unfolding unsubscribe
unsubscribe-unsubscribed s = ground arith

-- A subscription of the client that takes the place after an unsubscription stays open: however
-- often the subscription is unsubscribed again, the new one of the client never is, unless it had
-- been before.
pub late_subscription_stays_open :
    (n sub : ℕ) (s : SafeSubscription)
    → elem sub (unsubscribe s).dropped ≡ false
    → ¬ ((unsubscribe s).underlying ≡ sub)
    → elem sub (apply_uses (repeat_unsubscribe n) (set_underlying_sub sub (unsubscribe s))).dropped
      ≡ false
unfolding set_underlying_sub
late_subscription_stays_open n sub s h g =
    rw
      (
        unsubscribe_again n (set_underlying_sub sub (unsubscribe s)) (unsubscribe-unsubscribed s),
        ==_ne sub (unsubscribe s).underlying (λ e. g (sym e)),
      )
      h
