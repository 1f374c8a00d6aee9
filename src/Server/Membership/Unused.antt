-- ===== src/Server/Membership/Unused.antt =====
-- Client objects that no map of the server holds yet: a new connection, and a virtual client before
-- CIRCServer::AddVirtualClient.
use rosev_ircsystem.Common.{
  ℕ, ◌≡◌, ◌≢◌, false, none, some, [], ◌==◌, if◌then◌else◌, update, arith, inl, inr, Bool-cases,
}
use rosev_ircsystem.Text.{Text, text_eq_iff}
use rosev_ircsystem.Assoc.{
  nat_key, text_key, lookup, has_key, insert, lookup-insert, has_key-insert,
}
use rosev_ircsystem.State.{Client, Core}
use rosev_ircsystem.Server.Membership.{Inv, is_member}
use rosev_ircsystem.Server.Connection.{new_client}

-- An address at which no channel has a member, and to which no nickname leads.
pub record IsUnused (fresh : ℕ) (k : Core) : Type 0 where
  pub no_member : (key : Text) → is_member k key fresh ≡ false
  pub no_nickname : (n : Text) → lookup n k.nicknames ≢ some fresh

-- The maps after a connection: the client that has waited for it is one of the connections, and a
-- new client object stands at the unused address.
pub connect-Inv :
    (k k' : Core) (fresh : ℕ)
    → ((c : ℕ) → k'.clients c ≡ (if fresh == c then new_client else k.clients c))
    → k'.channels ≡ k.channels
    → k'.nicknames ≡ k.nicknames
    → k'.network_clients ≡ insert k.next_network_client tt k.network_clients
    → (k.clients k.next_network_client).shutdown_completed ≡ false
    → IsUnused fresh k
    → Inv k
    → Inv k'
unfolding is_member has_key lookup
connect-Inv k k' fresh same channels nicknames connections waiting unused v = record {
  agree = λ key c a. ground (arith, same c, channels, v.agree key c, unused.no_member key);
  gone = λ key c a. ground (arith, same c, channels, v.gone key c, unused.no_member key);
  owner = λ n c h. ground (arith, same c, nicknames, v.owner n c, unused.no_nickname n);
  named = λ c a f. ground (arith, same c, nicknames, v.named c);
  titled = λ c a. ground (arith, same c, v.titled c);
  lodged = λ key c h. ground (arith, same c, v.lodged key c);
  linked = λ c o. ground (arith, same c, v.linked c);
  listed = λ c h. ground (
    arith,
    same c,
    connections,
    waiting,
    has_key-insert k.next_network_client c tt k.network_clients,
    v.listed c,
  );
}

-- An object without a nickname is in no map.
pub nameless-IsUnused :
    (c : ℕ) (k : Core)
    → Inv k
    → (k.clients c).nickname ≡ []
    → (k.clients c).shutdown_completed ≡ false
    → IsUnused c k
nameless-IsUnused c k v e a = record {
  no_member = λ key. elim (Bool-cases (has_key key (k.clients c).joined_channels)) [
    | inl h ↦ ground (arith, e, v.lodged key c h)
    | inr h ↦ ground (arith, h, v.agree key c a)
  ];
  no_nickname = λ n f. ground (arith, e, v.owner n c f);
}

-- The maps when a client with a nickname that nobody has is put at an unused address.
pub enlist-Inv :
    (k : Core) (c : ℕ) (client : Client)
    → IsUnused c k
    → client.joined_channels ≡ []
    → client.shutdown_completed ≡ false
    → client.socket_open ≡ false
    → client.nickname ≢ []
    → lookup client.nickname_lowercased k.nicknames ≡ none
    → Inv k
    → Inv (record k {
      clients = update k.clients c client;
      nicknames = insert client.nickname_lowercased c k.nicknames;
    })
unfolding is_member has_key lookup
enlist-Inv k c client unused j a o f free v = record {
  agree = λ key d h. ground (arith, j, v.agree key d, unused.no_member key);
  gone = λ key d h. ground (arith, a, v.gone key d);
  owner = λ n d h. ground (
    arith,
    a,
    f,
    h,
    text_eq_iff client.nickname_lowercased n,
    lookup-insert client.nickname_lowercased n c k.nicknames free,
    v.owner n d,
    unused.no_nickname n,
  );
  named = λ d h g. ground (
    arith,
    text_eq_iff client.nickname_lowercased (k.clients d).nickname_lowercased,
    text_eq_iff client.nickname_lowercased client.nickname_lowercased,
    lookup-insert client.nickname_lowercased (k.clients d).nickname_lowercased c k.nicknames free,
    lookup-insert client.nickname_lowercased client.nickname_lowercased c k.nicknames free,
    v.named d,
  );
  titled = λ d h. ground (arith, f, v.titled d);
  lodged = λ key d h. ground (arith, f, v.lodged key d);
  linked = λ d h. ground (arith, a, v.linked d);
  listed = λ d h. ground (arith, a, v.listed d);
}
