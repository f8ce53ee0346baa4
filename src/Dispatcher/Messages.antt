-- ===== src/Dispatcher/Messages.antt =====
-- What DispatchNotifier needs of its pipe, or of its queue and event on Windows: a channel of messages
-- in order. On Unix these are the laws of pipe(), write(), read() and poll() for blocks of at most
-- PIPE_BUF bytes, which block until they succeed.
use glibmm.Base.{ℕ, ◌≡◌, Bool, true, List, [], ◌∷◌, ◌++◌, Option, none, some}

-- DispatchNotifyData
pub record Message : Type 0 where
  pub dispatcher_impl : ℕ
  pub notifier : ℕ

pub record Channel : Type 1 where
  pub State : Type 0
  pub empty : State
  pub send : State → Message → State
  pub receive : State → Option Message × State
  pub is_empty : State → Bool
  -- The messages that have been sent and not yet received, oldest first.
  pub contents : State → List Message
  pub contents-empty : contents empty ≡ []
  pub contents-send : (s : State) (m : Message) → contents (send s m) ≡ contents s ++ m ∷ []
  pub is_empty-eq : (s : State) → is_empty s ≡ true → contents s ≡ []
  pub empty-is_empty : (s : State) → contents s ≡ [] → is_empty s ≡ true
  pub receive-nil :
      (s : State) → contents s ≡ [] → ((receive s).0 ≡ none) × (contents (receive s).1 ≡ [])
  pub receive-cons :
      (s : State) (m : Message) (ms : List Message)
      → contents s ≡ m ∷ ms
      → ((receive s).0 ≡ some m) × (contents (receive s).1 ≡ ms)
