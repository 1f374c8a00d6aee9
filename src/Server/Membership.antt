-- ===== src/Server/Membership.antt =====
-- The effect of the handlers on channels, nicknames and clients, as operations on these maps alone,
-- and what each does to the membership of a channel.
pub mod Preserved
pub mod Spared
pub mod Ready
pub mod Unused
use rosev_ircsystem.Common.{
  ℕ, ◌≡◌, refl, ◌∙◌, ◌≢◌, Bool, true, false, ◌&&◌, ◌||◌, not, Option, none, some, List, [], ◌∷◌,
  arith, if◌then◌else◌, update, inl, inr, is_empty, Option-cases, ==_iff,
}
use rosev_ircsystem.Text.{Text, text_eq_iff}
use rosev_ircsystem.Assoc.{
  nat_key, text_key, Set, ◌==◌, lookup, insert, erase, assign, has_key, lookup-assign,
  has_key-erase, has_key-insert,
}
use rosev_ircsystem.State.{ClientStatus, Channel, Client, Core}

unfoldable pub change_client : (Client → Client) → ℕ → Core → Core
change_client f c k = record k { clients = update k.clients c (f (k.clients c)) }

-- RemoveClient and RemoveJoinedChannel.
unfoldable pub leave : ℕ → Text → Channel → Core → Core
leave c key channel k = record k {
  channels = assign key (record channel { clients = erase c channel.clients }) k.channels;
  clients =
      update k.clients c
        (record (k.clients c) { joined_channels = erase key (k.clients c).joined_channels });
}

-- AddClient and AddJoinedChannel.
unfoldable pub enter : ℕ → Text → ClientStatus → Channel → Core → Core
enter c key st channel k = record k {
  channels = assign key (record channel { clients = insert c st channel.clients }) k.channels;
  clients =
      update k.clients c
        (record (k.clients c) { joined_channels = insert key tt (k.clients c).joined_channels });
}

-- SetNickname, with the map of nicknames to which the new one is added.
unfoldable pub rename : ℕ → Text → Text → Text → List (Text × ℕ) → Core → Core
rename c nickname lower prefix nicknames k = record k {
  nicknames = insert lower c nicknames;
  clients =
      update k.clients c (record (k.clients c) {
        nickname = nickname;
        nickname_lowercased = lower;
        prefix = prefix;
      });
}

-- RemoveClient on the channel at the key, and on each of several.
unfoldable pub drop_channel : ℕ → Text → Core → Core
drop_channel c key k = elim (lookup key k.channels) [
  | none ↦ k
  | some channel ↦ record k {
    channels = assign key (record channel { clients = erase c channel.clients }) k.channels;
  }
]

unfoldable pub drop_channels : ℕ → Set Text → Core → Core
drop_channels c [] k = k
drop_channels c ((key, _) ∷ joined) k = drop_channels c joined (drop_channel c key k)

-- The end of a connection.
unfoldable pub close : ℕ → Core → Core
close c k = record k {
  clients =
      update k.clients c (record (k.clients c) { shutdown_completed = true; socket_open = false });
  network_clients = erase c k.network_clients;
  nicknames =
      (if is_empty (k.clients c).nickname
        then k.nicknames
        else erase (k.clients c).nickname_lowercased k.nicknames);
}

-- The client is a member of the channel at the key.
unfoldable pub is_member : Core → Text → ℕ → Bool
is_member k key c = elim (lookup key k.channels) [
  | none ↦ false
  | some channel ↦ has_key c channel.clients
]

pub is_member-leave :
    (c d : ℕ) (key j : Text) (channel : Channel) (k : Core)
    → lookup key k.channels ≡ some channel
    → is_member (leave c key channel k) j d
      ≡ (if (key == j) && (c == d) then false else is_member k j d)
unfolding is_member leave
is_member-leave c d key j channel k e = ground (
  arith,
  lookup-assign key j (record channel { clients = erase c channel.clients }) channel k.channels e,
  has_key-erase c d channel.clients,
  text_eq_iff key j,
)

pub is_member-enter :
    (c d : ℕ) (key j : Text) (st : ClientStatus) (channel : Channel) (k : Core)
    → lookup key k.channels ≡ some channel
    → is_member (enter c key st channel k) j d
      ≡ (if (key == j) && (c == d) then true else is_member k j d)
unfolding is_member enter
is_member-enter c d key j st channel k e = ground (
  arith,
  lookup-assign key j (record channel { clients = insert c st channel.clients }) channel k.channels
      e,
  has_key-insert c d st channel.clients,
  text_eq_iff key j,
)

is_member-drop_channel :
    (c d : ℕ) (key j : Text) (k : Core)
    → is_member (drop_channel c key k) j d
      ≡ (if (key == j) && (c == d) then false else is_member k j d)
unfolding is_member drop_channel
is_member-drop_channel c d key j k = elim (Option-cases (lookup key k.channels)) [
  | inl e ↦ ground (arith, text_eq_iff key j)
  | inr (channel, e) ↦ ground (
    arith,
    lookup-assign key j (record channel { clients = erase c channel.clients }) channel k.channels e,
    has_key-erase c d channel.clients,
    text_eq_iff key j,
  )
]

pub is_member-drop_channels :
    (c d : ℕ) (joined : Set Text) (j : Text) (k : Core)
    → is_member (drop_channels c joined k) j d
      ≡ (if has_key j joined && (c == d) then false else is_member k j d)
unfolding drop_channels has_key lookup
is_member-drop_channels c d [] j k = refl
is_member-drop_channels c d ((key, _) ∷ joined) j k =
    is_member-drop_channels c d joined j _ ∙ ground (arith, is_member-drop_channel c d key j k)

-- The server's maps agree with each other: a client that is connected is a member of the channels
-- that it has joined and of no others, a client that has been shut down of none; a nickname leads
-- to a connected client that has it, and is not empty; a connected client with a nickname is found
-- under it; and a client that has sent NICK or has joined a channel has a nickname. A client that
-- has been shut down has a closed socket and is none of the connections that the server keeps.
pub record Inv (k : Core) : Type 0 where
  pub agree :
      (key : Text) (c : ℕ)
      → (k.clients c).shutdown_completed ≡ false
      → is_member k key c ≡ has_key key (k.clients c).joined_channels
  pub gone :
      (key : Text) (c : ℕ) → (k.clients c).shutdown_completed ≡ true → is_member k key c ≡ false
  pub owner :
      (n : Text) (c : ℕ)
      → lookup n k.nicknames ≡ some c
      → ((k.clients c).nickname_lowercased ≡ n)
        × ((k.clients c).shutdown_completed ≡ false)
        × ((k.clients c).nickname ≢ [])
  pub named :
      (c : ℕ)
      → (k.clients c).shutdown_completed ≡ false
      → (k.clients c).nickname ≢ []
      → lookup (k.clients c).nickname_lowercased k.nicknames ≡ some c
  pub titled :
      (c : ℕ) → (k.clients c).user_state.has_sent_nick_message ≡ true → (k.clients c).nickname ≢ []
  pub lodged :
      (key : Text) (c : ℕ)
      → has_key key (k.clients c).joined_channels ≡ true
      → (k.clients c).nickname ≢ []
  pub linked : (c : ℕ) → (k.clients c).socket_open ≡ true → (k.clients c).shutdown_completed ≡ false
  pub listed :
      (c : ℕ) → has_key c k.network_clients ≡ true → (k.clients c).shutdown_completed ≡ false
