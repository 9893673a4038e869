-- ===== src/Relay/Examples.antt =====
-- The relay's theorems on a bounded queue, with two peers of one installation.
use mews.Prelude.{
  byte_len, ℕ, String, ◌≡◌, refl, Bool, true, false, ltb, Option, none, some, List, [], ◌∷◌, ◌++◌,
  length, get_elem?, find, keep, arith,
}
use text.Mathlib.Text.{◌==◌ as str_eq}
use mews.Protocol.Values.{Time}
use mews.Relay.Admission.{create_admission, signed_is_enrolled}
use mews.Relay.Frame.{RelayAdmission, RelayIdentity, RelayFrame, validate_frame}
use mews.Relay.Router.{
  Mpsc, Sent, sent, full, closed, key_of, same_key, RelayConnection, RelayRouter, connect, register,
  is_current, foreign, send, finish_receive,
}
use mews.Relay.Delivery.{Event, registers, sends, acts, new_router, IsDelivery, receive_lem}
use mews.Relay.Replace.{IsReplaced, register_lem}

record Queue : Type 0 where
  capacity : ℕ
  frames : List RelayFrame
  is_closed : Bool

abbrev push : RelayFrame → Queue → Bool → Bool → Sent Queue
push f q true room = closed
push f q false false = full
push f q false true = sent (record q { frames = q.frames ++ f ∷ [] })

abbrev pop : Queue → List RelayFrame → Option (RelayFrame × Queue)
pop q [] = none
pop q (f ∷ fs) = some (f, record q { frames = fs })

push-sent :
    (f : RelayFrame) (q : Queue) (b room : Bool) (d : Queue)
    → push f q b room ≡ sent d
    → d.frames ≡ q.frames ++ f ∷ []
push-sent f q true room d h = absurd (cc)
push-sent f q false false d h = absurd (cc)
push-sent f q false true d h = cc

pop-some :
    (q : Queue) (fs : List RelayFrame) (f : RelayFrame) (d : Queue)
    → pop q fs ≡ some (f, d)
    → fs ≡ f ∷ d.frames
pop-some q [] f d h = absurd (cc)
pop-some q (g ∷ fs) f d h = cc

abbrev bounded : Mpsc
bounded = record {
  Channel = Queue;
  channel = λ n. record { capacity = n; frames = []; is_closed = false };
  try_send = λ f q. push f q q.is_closed (ltb (length q.frames) q.capacity);
  recv = λ q. pop q q.frames;
  close = λ q. record q { is_closed = true };
  waiting = λ q. q.frames;
  waiting-channel = λ n. refl;
  waiting-try_send = λ f c d h. push-sent f c _ _ d h;
  waiting-recv = λ f c d h. pop-some c c.frames f d h;
  waiting-close = λ c. refl;
}

-- A signature that is the text it signs.
abbrev signs : String → String → String → Bool
signs key text signature = str_eq text signature

abbrev admitted : String → String → RelayAdmission
admitted peer key =
    create_admission (λ i. "ins") (λ t. "2030") signs (λ text. text) "a" 5 peer key 90

abbrev hub : RelayIdentity
hub = record {
  installation_id = 5;
  peer_id = "hub";
  public_key = "k1";
  authority_public_key = "a";
  admission = some (admitted "hub" "k1");
}

abbrev phone : RelayIdentity
phone = record {
  installation_id = 5;
  peer_id = "phone";
  public_key = "k2";
  authority_public_key = "a";
  admission = some (admitted "phone" "k2");
}

abbrev enrolled : Time → RelayIdentity → Bool
enrolled = signed_is_enrolled (λ i. "ins") (λ t. "2030") signs

abbrev hello : RelayFrame
hello = record {
  installation_id = 5;
  source_id = "hub";
  destination_id = "phone";
  subject_id = "s";
  sequence = 1;
  ciphertext = 1 ∷ 2 ∷ [];
}

abbrev anyone : RelayIdentity → Bool
anyone i = true

abbrev events : List Event
events = registers 10 hub true ∷ registers 11 phone true ∷ sends 0 hello ∷ []

hello_received :
    (finish_receive bounded 1 (acts bounded enrolled events (new_router bounded enrolled 4))).0
    ≡ some hello
unfolding finish_receive acts register send validate_frame find same_key keep signed_is_enrolled
    create_admission
hello_received = refl

receive_lem_example : IsDelivery bounded enrolled 4 events 1 hello
receive_lem_example = receive_lem bounded enrolled 4 events 1 hello hello_received

abbrev first_hub : RelayConnection bounded
first_hub = record {
  identity = hub;
  key = key_of hub;
  generation = 1;
  receiver = record { capacity = 4; frames = []; is_closed = false };
}

abbrev one_hub : RelayRouter bounded
one_hub = record {
  queue_capacity = 4;
  next_generation = 1;
  routes = record { key = key_of hub; generation = 1; sender = 0 } ∷ [];
  connections = first_hub ∷ [];
}

hub_again : register bounded anyone anyone hub one_hub ≡ (none, connect bounded hub one_hub)
unfolding register
hub_again = refl

hello-valid : validate_frame hello ≡ none
unfolding validate_frame byte_len
hello-valid = refl

hello-own : foreign bounded first_hub hello ≡ false
unfolding foreign
hello-own = refl

register_lem_example :
    IsReplaced bounded hub one_hub 0 first_hub hello (connect bounded hub one_hub)
    × ((c : RelayConnection bounded) × (get_elem? (connect bounded hub one_hub).connections 1
          ≡ some c)
        × (c.identity ≡ hub)
        × (is_current bounded c (connect bounded hub one_hub) ≡ true))
register_lem_example =
    register_lem bounded hub one_hub anyone anyone (connect bounded hub one_hub) hub_again 0
      first_hub hello refl refl (omega arith) (omega arith) hello-valid hello-own
