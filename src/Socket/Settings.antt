-- ===== src/Socket/Settings.antt =====
-- backend.go: subscriptions and options.
use qzmq.Common.{
  ℕ, Bool, true, false, not, ◌&&◌, ◌||◌, ◌==◌, text_eq, if◌then◌else◌, List, [], ◌∷◌, Error, ok,
  err, Action, ◌>>=◌, ◌>>◌, pure, fail_if, gets, lift, subscribe_only_sub, unsubscribe_only_sub,
  unsupported_option,
}
use qzmq.Common.Int.{pos}
use qzmq.Common.Text.{Text, text}
use qzmq.Options.{Suite, SocketType, sub, xsub, kem_code, sign_code}
use qzmq.Socket.Types.{
  ZmqLibrary, ZmqSocket, ZmqOption, Value, int_value, text_value, bool_value, socket_type_value,
  suite_value, option_subscribe, option_unsubscribe, option_hwm,
}
use qzmq.Socket.Calls.{on_library, check_open}

unfoldable pub is_sub : SocketType → Bool
is_sub sub = true
is_sub _ = false

unfoldable pub is_xsub : SocketType → Bool
is_xsub xsub = true
is_xsub _ = false

unfoldable pub one_of : Text → List Text → Bool
one_of name [] = false
one_of name (t ∷ ts) = text_eq name t || one_of name ts

-- `s.opts.Suite.KEM != 0 || s.opts.Suite.Sign != 0`.
abbrev pub is_encrypted : Suite → Bool
is_encrypted s = not (kem_code s.kem == 0) || not (sign_code s.sign == 0)

module _ {S : Type 0} (zmq : ZmqLibrary S) where
  -- XSUB sends the filter behind a mark, SUB sets an option.
  abbrev pub tell : ℕ → ZmqOption → Text → SocketType → Action (ZmqSocket S) (Unit {0})
  tell mark option filter kind =
      if is_xsub kind
      then on_library (zmq.send_frames ((mark ∷ filter) ∷ []))
      else on_library (zmq.set_zmq_option option (text_value filter))

  -- The two methods differ in the error, the first byte and the option.
  abbrev pub change_subscription : Error → ℕ → ZmqOption → Text → Action (ZmqSocket S) (Unit {0})
  change_subscription refusal mark option filter = do
    check_open
    kind ← gets (λ z. z.socket_type)
    fail_if (not (is_sub kind) && not (is_xsub kind)) refusal
    tell mark option filter kind

  unfoldable pub subscribe : Text → Action (ZmqSocket S) (Unit {0})
  subscribe = change_subscription subscribe_only_sub 1 option_subscribe

  unfoldable pub unsubscribe : Text → Action (ZmqSocket S) (Unit {0})
  unsubscribe = change_subscription unsubscribe_only_sub 0 option_unsubscribe

  -- `if v, ok := value.(int); ok { return … }`: another value falls out of the `switch`.
  abbrev pub set_high_water : Text → Value → Action (ZmqSocket S) (Unit {0})
  set_high_water name (int_value v) = on_library (zmq.set_zmq_option option_hwm (int_value v))
  set_high_water name _ = lift (err (unsupported_option name))

  unfoldable pub set_option : Text → Value → Action (ZmqSocket S) (Unit {0})
  set_option name value =
      check_open
      >> (if one_of name (text "sndhwm" ∷ text "rcvhwm" ∷ [])
          then set_high_water name value
          else if one_of name
              (text "linger" ∷ text "identity" ∷ text "rcvtimeo" ∷ text "sndtimeo" ∷ [])
          then pure tt
          else lift (err (unsupported_option name)))

  unfoldable pub get_option : Text → Action (ZmqSocket S) Value
  get_option name = do
    check_open
    z ← gets (λ z. z)
    lift (
        if text_eq name (text "type")
        then ok (socket_type_value z.socket_type)
        else if one_of name (text "suite" ∷ text "qzmq.suite" ∷ [])
        then ok (suite_value z.opts.suite)
        else if text_eq name (text "qzmq.encrypted")
        then ok (bool_value (is_encrypted z.opts.suite))
        else if one_of name (text "sndhwm" ∷ text "rcvhwm" ∷ [])
        then ok (int_value (pos 1000))
        else if text_eq name (text "identity")
        then ok (text_value [])
        else err (unsupported_option name))
