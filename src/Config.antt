-- ===== src/Config.antt =====
-- core/adapter/config.h and config.cpp: the configuration, one for the process or one for each thread.
use msgrpc.Base.{
  ℕ, ◌≡◌, refl, Bool, true, false, ◌&&◌, Option, none, some, Run, ok, ◌>>◌, assert, if◌then◌else◌,
  ◌==◌, inl, inr, Bool-cases,
}
use msgrpc.World.{Ptr, MsgIds}

-- `Config`: the pointers to the adapters, and the ids of the messages (all 0 at first).
pub record Config : Type 0 where
  pub msg_channel : Option Ptr
  pub timer : Option Ptr
  pub service_register : Option Ptr
  pub logger : Option Ptr
  pub ids : MsgIds

-- `is_thread_local_mode_` and the two objects in `Config::instance`; a thread is a number.
pub record Configs : Type 0 where
  pub thread_local_mode : Bool
  pub thread_local_instance : (thread : ℕ) → Config
  pub global_instance : Config

unfoldable pub switch_into_thread_local_mode : Configs → Configs
switch_into_thread_local_mode c = record c { thread_local_mode = true }

-- `Config::instance()` on a thread.
unfoldable pub instance_on : ℕ → Configs → Config
instance_on thread c =
    if c.thread_local_mode then c.thread_local_instance thread else c.global_instance

-- What a change of the object that `Config::instance()` refers to does.
unfoldable pub put_instance : ℕ → Config → Configs → Configs
put_instance thread config c =
    if c.thread_local_mode
    then record c {
      thread_local_instance = λ t. if t == thread then config else c.thread_local_instance t;
    }
    else record c { global_instance = config }

abbrev pub is_set : Option Ptr → Bool
is_set none = false
is_set (some p) = true

-- `Config::instance().init_with(…)` on a thread: all pointers but the logger are asserted.
unfoldable pub init_with : ℕ → Config → Configs → Run Configs
unfolding put_instance
init_with thread config c = do
  assert (is_set config.msg_channel && is_set config.timer && is_set config.service_register)
  ok (put_instance thread config c)

-- Whether two threads use the same configuration.
abbrev pub shares : Configs → ℕ → ℕ → Bool
shares c other thread = if c.thread_local_mode then other == thread else true

instance_on-put_instance :
    (thread other : ℕ) (config : Config) (c : Configs)
    → instance_on other (put_instance thread config c)
      ≡ (if shares c other thread then config else instance_on other c)
unfolding instance_on put_instance
instance_on-put_instance thread other config c = elim (Bool-cases c.thread_local_mode) [
  | inl e ↦ rw e refl
  | inr e ↦ rw e refl
]

-- After a thread initialised its configuration, with all the adapters but perhaps the logger, the
-- threads that share it read the new one, and the others what they did before.
pub init_with-instance_on :
    (thread other channel timer register : ℕ) (logger : Option Ptr) (ids : MsgIds) (c : Configs)
    → (c' : Configs) × (init_with thread
          (record {
            msg_channel = some channel;
            timer = some timer;
            service_register = some register;
            logger = logger;
            ids = ids;
          })
          c
        ≡ ok c')
      × (instance_on other c' ≡ (
          if shares c other thread
          then record {
            msg_channel = some channel;
            timer = some timer;
            service_register = some register;
            logger = logger;
            ids = ids;
          }
          else instance_on other c))
unfolding init_with
init_with-instance_on thread other channel timer register logger ids c =
    (_, refl, instance_on-put_instance thread other _ c)
