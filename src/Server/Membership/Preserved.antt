-- ===== src/Server/Membership/Preserved.antt =====
-- The operations on the server's maps keep them in agreement.
use rosev_ircsystem.Common.{
  ℕ, ◌≡◌, refl, ap, ◌∙◌, ◌≢◌, true, false, ◌&&◌, none, some, List, [], ◌∷◌, arith, if◌then◌else◌,
  is_empty,
}
use rosev_ircsystem.Text.{Text, text_eq, text_eq_iff}
use rosev_ircsystem.Assoc.{
  nat_key, text_key, Set, ◌==◌, lookup, has_key, has_key-erase, has_key-insert, lookup-erase,
  lookup-insert,
}
use rosev_ircsystem.State.{ClientStatus, Channel, UserState, Core}
use rosev_ircsystem.Server.Membership.{
  leave, enter, rename, close, change_client, drop_channel, drop_channels, is_member,
  is_member-leave, is_member-enter, is_member-drop_channels, Inv,
}

pub leave-Inv :
    (c : ℕ) (key : Text) (channel : Channel) (k : Core)
    → lookup key k.channels ≡ some channel
    → Inv k
    → Inv (leave c key channel k)
unfolding leave
leave-Inv c key channel k e v = record {
  agree = λ j d a.
      rw (is_member-leave c d key j channel k e)
        (ground (arith, v.agree j d, has_key-erase key j (k.clients c).joined_channels));
  gone = λ j d a. rw (is_member-leave c d key j channel k e) (ground (arith, v.gone j d));
  owner = λ n d h. ground (arith, v.owner n d h);
  named = λ d a h. ground (arith, v.named d);
  titled = λ d a. ground (arith, v.titled d);
  lodged = λ j d a. ground (arith, v.lodged j d, has_key-erase key j (k.clients c).joined_channels);
  linked = λ d o. ground (arith, v.linked d);
  listed = λ d h. ground (arith, v.listed d);
}

pub enter-Inv :
    (c : ℕ) (key : Text) (st : ClientStatus) (channel : Channel) (k : Core)
    → lookup key k.channels ≡ some channel
    → (k.clients c).shutdown_completed ≡ false
    → (k.clients c).nickname ≢ []
    → Inv k
    → Inv (enter c key st channel k)
unfolding enter
enter-Inv c key st channel k e alive filled v = record {
  agree = λ j d a.
      rw (is_member-enter c d key j st channel k e)
        (ground (arith, v.agree j d, has_key-insert key j tt (k.clients c).joined_channels));
  gone = λ j d a. rw (is_member-enter c d key j st channel k e) (ground (arith, v.gone j d));
  owner = λ n d h. ground (arith, v.owner n d h);
  named = λ d a h. ground (arith, v.named d);
  titled = λ d a. ground (arith, v.titled d);
  lodged =
      λ j d a. ground (arith, v.lodged j d, has_key-insert key j tt (k.clients c).joined_channels);
  linked = λ d o. ground (arith, v.linked d);
  listed = λ d h. ground (arith, v.listed d);
}

pub set_user_state-Inv :
    (c : ℕ) (state : UserState) (k : Core)
    → (state.has_sent_nick_message ≡ true → (k.clients c).nickname ≢ [])
    → Inv k
    → Inv (change_client (λ client. record client { user_state = state }) c k)
unfolding change_client is_member
set_user_state-Inv c state k filled v = record {
  agree = λ j d a. ground (arith, v.agree j d);
  gone = λ j d a. ground (arith, v.gone j d);
  owner = λ n d h. ground (arith, v.owner n d h);
  named = λ d a h. ground (arith, v.named d);
  titled = λ d a. ground (arith, v.titled d);
  lodged = λ j d a. ground (arith, v.lodged j d);
  linked = λ d o. ground (arith, v.linked d);
  listed = λ d h. ground (arith, v.listed d);
}

pub rename-Inv :
    (c : ℕ) (nickname lower prefix : Text) (nicknames : List (Text × ℕ)) (k : Core)
    → (k.clients c).shutdown_completed ≡ false
    → nickname ≢ []
    → ((n : Text) (d : ℕ) → lookup n nicknames ≡ some d → lookup n k.nicknames ≡ some d)
    → ((n : Text) → lookup n nicknames ≢ some c)
    → ((n : Text) (d : ℕ) → lookup n k.nicknames ≡ some d → d ≢ c → lookup n nicknames ≡ some d)
    → lookup lower nicknames ≡ none
    → Inv k
    → Inv (rename c nickname lower prefix nicknames k)
unfolding rename is_member
rename-Inv c nickname lower prefix nicknames k alive filled sub nobody keep fresh v = record {
  agree = λ j d a. ground (arith, v.agree j d);
  gone = λ j d a. ground (arith, v.gone j d);
  owner = λ n d h. ground (
    arith,
    lookup-insert lower n c nicknames fresh,
    text_eq_iff lower n,
    sub n d,
    nobody n,
    v.owner n d,
  );
  named = λ d a h. ground (
    arith,
    lookup-insert lower (k.clients d).nickname_lowercased c nicknames fresh,
    lookup-insert lower lower c nicknames fresh,
    text_eq_iff lower (k.clients d).nickname_lowercased,
    text_eq_iff lower lower,
    keep (k.clients d).nickname_lowercased d,
    v.named d,
  );
  titled = λ d a. ground (arith, v.titled d);
  lodged = λ j d a. ground (arith, v.lodged j d);
  linked = λ d o. ground (arith, v.linked d);
  listed = λ d h. ground (arith, v.listed d);
}

pub clients-drop_channels :
    (c : ℕ) (joined : Set Text) (k : Core) → (drop_channels c joined k).clients ≡ k.clients
unfolding drop_channels drop_channel
clients-drop_channels c [] k = refl
clients-drop_channels c ((key, _) ∷ joined) k = clients-drop_channels c joined _ ∙ ground arith

pub nicknames-drop_channels :
    (c : ℕ) (joined : Set Text) (k : Core) → (drop_channels c joined k).nicknames ≡ k.nicknames
unfolding drop_channels drop_channel
nicknames-drop_channels c [] k = refl
nicknames-drop_channels c ((key, _) ∷ joined) k = nicknames-drop_channels c joined _ ∙ ground arith

pub network_clients-drop_channels :
    (c : ℕ) (joined : Set Text) (k : Core)
    → (drop_channels c joined k).network_clients ≡ k.network_clients
unfolding drop_channels drop_channel
network_clients-drop_channels c [] k = refl
network_clients-drop_channels c ((key, _) ∷ joined) k =
    network_clients-drop_channels c joined _ ∙ ground arith

-- Closing works on maps that are those of k without the client's memberships.
module _ (c : ℕ) (k k' : Core) (alive : (k.clients c).shutdown_completed ≡ false) (v : Inv k)
    (same_clients : (d : ℕ) → k'.clients d ≡ k.clients d)
    (same_nicknames : k'.nicknames ≡ k.nicknames)
    (same_network : k'.network_clients ≡ k.network_clients)
    (dropped : (j : Text) (d : ℕ)
      → is_member k' j d ≡ (
          if has_key j (k.clients c).joined_channels && (c == d)
          then false
          else is_member k j d)) where
  close_agree :
      (j : Text) (d : ℕ)
      → ((close c k').clients d).shutdown_completed ≡ false
      → is_member (close c k') j d ≡ has_key j ((close c k').clients d).joined_channels
  unfolding close is_member
  close_agree j d a = ground (arith, dropped j d, v.agree j d, same_clients d)

  close_gone :
      (j : Text) (d : ℕ)
      → ((close c k').clients d).shutdown_completed ≡ true
      → is_member (close c k') j d ≡ false
  unfolding close is_member
  close_gone j d a = ground (arith, dropped j d, v.agree j d, v.gone j d, same_clients d)

  lookup-close :
      (n : Text)
      → lookup n (close c k').nicknames ≡ (
          if is_empty (k.clients c).nickname
          then lookup n k.nicknames
          else if text_eq (k.clients c).nickname_lowercased n
          then none
          else lookup n k.nicknames)
  unfolding close
  lookup-close n = ground (
    arith,
    same_clients c,
    same_nicknames,
    lookup-erase (k.clients c).nickname_lowercased n k.nicknames,
  )

  close_owner :
      (n : Text) (d : ℕ)
      → lookup n (close c k').nicknames ≡ some d
      → (((close c k').clients d).nickname_lowercased ≡ n)
        × (((close c k').clients d).shutdown_completed ≡ false)
        × (((close c k').clients d).nickname ≢ [])
  close_owner n d h = owner_of (rw (lookup-close n) at h)
    where
      owner_of :
          (if is_empty (k.clients c).nickname
              then lookup n k.nicknames
              else if text_eq (k.clients c).nickname_lowercased n
              then none
              else lookup n k.nicknames)
            ≡ some d
          → (((close c k').clients d).nickname_lowercased ≡ n)
            × (((close c k').clients d).shutdown_completed ≡ false)
            × (((close c k').clients d).nickname ≢ [])
      owner_of h =
          unfold close in
          ground
            (arith, v.owner n d, same_clients d, text_eq_iff (k.clients c).nickname_lowercased n)

  close_named :
      (d : ℕ)
      → ((close c k').clients d).shutdown_completed ≡ false
      → ((close c k').clients d).nickname ≢ []
      → lookup ((close c k').clients d).nickname_lowercased (close c k').nicknames ≡ some d
  close_named d a f = rw (lookup-close ((close c k').clients d).nickname_lowercased) (found a f)
    where
      found :
          ((close c k').clients d).shutdown_completed ≡ false
          → ((close c k').clients d).nickname ≢ []
          → (if is_empty (k.clients c).nickname
              then lookup ((close c k').clients d).nickname_lowercased k.nicknames
              else if text_eq
                  (k.clients c).nickname_lowercased
                  ((close c k').clients d).nickname_lowercased
              then none
              else lookup ((close c k').clients d).nickname_lowercased k.nicknames)
            ≡ some d
      found a f =
          unfold close in
          ground (
            arith,
            v.named d,
            v.named c alive,
            same_clients d,
            text_eq_iff (k.clients c).nickname_lowercased (k.clients d).nickname_lowercased,
          )

  close_titled :
      (d : ℕ)
      → ((close c k').clients d).user_state.has_sent_nick_message ≡ true
      → ((close c k').clients d).nickname ≢ []
  unfolding close
  close_titled d a = ground (arith, v.titled d, same_clients d)

  close_lodged :
      (j : Text) (d : ℕ)
      → has_key j ((close c k').clients d).joined_channels ≡ true
      → ((close c k').clients d).nickname ≢ []
  unfolding close
  close_lodged j d a = ground (arith, v.lodged j d, same_clients d)

  close_linked :
      (d : ℕ)
      → ((close c k').clients d).socket_open ≡ true
      → ((close c k').clients d).shutdown_completed ≡ false
  unfolding close
  close_linked d o = ground (arith, v.linked d, same_clients d)

  close_listed :
      (d : ℕ)
      → has_key d (close c k').network_clients ≡ true
      → ((close c k').clients d).shutdown_completed ≡ false
  unfolding close
  close_listed d h =
      ground (arith, v.listed d, same_clients d, same_network, has_key-erase c d k.network_clients)

  close-Inv : Inv (close c k')
  close-Inv = record {
    agree = close_agree;
    gone = close_gone;
    owner = close_owner;
    named = close_named;
    titled = close_titled;
    lodged = close_lodged;
    linked = close_linked;
    listed = close_listed;
  }

pub close-drop_channels-Inv :
    (c : ℕ) (k : Core)
    → (k.clients c).shutdown_completed ≡ false
    → Inv k
    → Inv (close c (drop_channels c (k.clients c).joined_channels k))
close-drop_channels-Inv c k alive v =
    close-Inv c k (drop_channels c (k.clients c).joined_channels k) alive v
      (λ d. ap (λ f. f d) (clients-drop_channels c (k.clients c).joined_channels k))
      (nicknames-drop_channels c (k.clients c).joined_channels k)
      (network_clients-drop_channels c (k.clients c).joined_channels k)
      (λ j d. is_member-drop_channels c d (k.clients c).joined_channels j k)
