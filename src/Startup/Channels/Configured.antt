-- ===== src/Startup/Channels/Configured.antt =====
-- The preset channels are those of the files.
use rosev_ircsystem.Common.{
  ◌≡◌, refl, sym, subst, ap, ◌∙◌, Bool, true, false, ◌&&◌, ◌||◌, Option, none, some, List, [], ◌∷◌,
  arith, is_empty, if◌then◌else◌, inl, inr, Bool-cases, Option-cases,
}
use rosev_ircsystem.Text.{Text, lit, lowercased, text_eq, text_eq_iff}
use rosev_ircsystem.Assoc.{
  text_key, lookup, insert, has_key, Set, lookup-insert, lookup-assign, insert-of_some,
  has_key-insert,
}
use rosev_ircsystem.State.{Channel}
use rosev_ircsystem.Startup.Result.{
  ok, Returns, returned, thrown, ◌⟫◌, of_ok, weaken, throw_if-Returns,
}
use rosev_ircsystem.Startup.Host.{Entry}
use rosev_ircsystem.Startup.Channels.{
  add_user, channel_users, channel_observers, is_legal_name, add_channel, add_channels,
  preset_channels,
}

-- Channel_Users.ini has an entry for the channel and the user, apart from the case of letters.
pub is_allowed : Text → Text → List Entry → Bool
is_allowed key user [] = false
is_allowed key user ((channel, u) ∷ entries) =
    text_eq (lowercased channel) key && text_eq (lowercased u) user || is_allowed key user entries

-- Channel_Observers.ini sets the channel to true.
pub is_observed : Text → List Entry → Bool
is_observed key [] = false
is_observed key ((channel, value) ∷ entries) =
    text_eq (lowercased channel) key && text_eq value (lit "true") || is_observed key entries

-- Channels.ini names the channel.
pub is_preset : Text → List Entry → Bool
is_preset key [] = false
is_preset key ((channel, topic) ∷ entries) =
    text_eq (lowercased channel) key || is_preset key entries

-- The users of a channel in ChannelUsersMap: the set that find() finds, if any.
given : Option (Set Text) → Set Text
given none = []
given (some allowed) = allowed

abbrev users_of : Text → List (Text × Set Text) → Set Text
users_of key users = given (lookup key users)

lookup-add_user :
    (key channel u : Text) (users : List (Text × Set Text)) (o : Option (Set Text))
    → lookup (lowercased channel) users ≡ o
    → lookup key (add_user (channel, u) users) ≡ (
        if text_eq (lowercased channel) key
        then some (insert (lowercased u) tt (given o))
        else lookup key users)
unfolding add_user given
lookup-add_user key channel u users none e =
    rw (e, add_user) (lookup-insert (lowercased channel) key (insert (lowercased u) tt []) users e)
lookup-add_user key channel u users (some allowed) e =
    rw (e, add_user)
      (lookup-assign (lowercased channel) key (insert (lowercased u) tt allowed) allowed users e)

has_key-given_if :
    (user u : Text) (b : Bool) (o p : Option (Set Text))
    → (b ≡ true → o ≡ p)
    → has_key user (given (if b then some (insert (lowercased u) tt (given o)) else p))
      ≡ (b && text_eq (lowercased u) user || has_key user (given p))
unfolding given
has_key-given_if user u true o p e =
    rw (has_key-insert (lowercased u) user tt (given o), e refl) (ground arith)
has_key-given_if user u false o p e = refl

users_of-add_user :
    (key user : Text) (channel u : Text) (users : List (Text × Set Text))
    → has_key user (users_of key (add_user (channel, u) users)) ≡ (
        text_eq (lowercased channel) key && text_eq (lowercased u) user
        || has_key user (users_of key users))
users_of-add_user key user channel u users =
    ap (λ o. has_key user (given o)) (lookup-add_user key channel u users _ refl)
    ∙ has_key-given_if user u (text_eq (lowercased channel) key) _ _
        (λ e. ap (λ k. lookup k users) ((text_eq_iff (lowercased channel) key).0 e))

users_of-channel_users :
    (key user : Text) (users : List (Text × Set Text)) (entries : List Entry)
    → has_key user (users_of key (channel_users users entries))
      ≡ (is_allowed key user entries || has_key user (users_of key users))
unfolding channel_users is_allowed
users_of-channel_users key user users [] = refl
users_of-channel_users key user users ((channel, u) ∷ entries) = ground (
  arith,
  users_of-channel_users key user (add_user (channel, u) users) entries,
  users_of-add_user key user channel u users,
)

has_key-channel_observers :
    (key : Text) (observers : Set Text) (entries : List Entry)
    → has_key key (channel_observers observers entries)
      ≡ (is_observed key entries || has_key key observers)
unfolding channel_observers is_observed
has_key-channel_observers key observers [] = refl
has_key-channel_observers key observers ((channel, value) ∷ entries) =
    elim (Bool-cases (text_eq value (lit "true"))) [
      | inl e ↦ rw (e) (
          ground (
            arith,
            has_key-channel_observers key (insert (lowercased channel) tt observers) entries,
            has_key-insert (lowercased channel) key tt observers,
          ))
      | inr e ↦ rw (e) (ground (arith, has_key-channel_observers key observers entries))
    ]

-- A channel as the loop creates it from the two maps.
record IsFrom (users : List (Text × Set Text)) (observers : Set Text) (key : Text)
    (channel : Channel) : Type 0 where
  pub titled : lowercased channel.name ≡ key
  pub legal : is_legal_name channel.name ≡ true
  pub allowed : lookup key users ≡ some channel.allowed_users
  pub observed : channel.allow_observers ≡ has_key key observers
  pub vacant : channel.clients ≡ []

module _ (users : List (Text × Set Text)) (observers : Set Text) where
  abbrev AllFrom : List (Text × Channel) → Type 0
  AllFrom channels =
      (key : Text) (channel : Channel)
      → lookup key channels ≡ some channel
      → IsFrom users observers key channel

  insert-AllFrom :
      (k : Text) (new : Channel) (channels : List (Text × Channel))
      → IsFrom users observers k new
      → AllFrom channels
      → AllFrom (insert k new channels)
  insert-AllFrom k new channels n all key channel e = elim (Option-cases (lookup k channels)) [
    | inl none_there ↦ elim (Bool-cases (text_eq k key)) [
      | inl same ↦
          subst (IsFrom users observers key)
            (ground (arith, e, same, lookup-insert k key new channels none_there))
            (subst (λ j. IsFrom users observers j new) ((text_eq_iff k key).0 same) n)
      | inr other ↦
          all key channel (ground (arith, e, other, lookup-insert k key new channels none_there))
    ]
    | inr (w, there) ↦
        all key channel
          (subst (λ m. lookup key m ≡ some channel) (insert-of_some k new w channels there) e)
  ]

  -- What a loop over the entries has done: the channels come from the maps, and those of the
  -- entries are there, beside the earlier ones.
  record IsAdded (earlier : List (Text × Channel)) (entries : List Entry)
      (channels : List (Text × Channel)) : Type 0 where
    pub from : AllFrom channels
    pub there : (key : Text) → has_key key channels ≡ (is_preset key entries || has_key key earlier)

  add_channel-IsAdded :
      (entry : Entry) (channels : List (Text × Channel))
      → AllFrom channels
      → Returns (IsAdded channels (entry ∷ [])) (add_channel users observers entry channels)
  unfolding add_channel is_preset
  add_channel-IsAdded (name, topic) channels all = elim (Bool-cases (is_legal_name name)) [
    | inr e ↦ rw (e) thrown
    | inl e ↦ elim (Option-cases (lookup (lowercased name) users)) [
      | inl f ↦ rw (e, f) thrown
      | inr (allowed, f) ↦
          rw (e, f)
            (returned (record {
              from =
                  insert-AllFrom (lowercased name) _ channels
                    (record {
                      titled = refl;
                      legal = e;
                      allowed = f;
                      observed = refl;
                      vacant = refl;
                    })
                    all;
              there = λ key. ground (
                arith,
                has_key-insert (lowercased name) key
                    (record {
                      name = name;
                      topic = topic;
                      allowed_users = allowed;
                      allow_observers = has_key (lowercased name) observers;
                      clients = [];
                    })
                    channels,
              );
            }))
    ]
  ]

  add_channels-IsAdded :
      (channels : List (Text × Channel)) (entries : List Entry)
      → AllFrom channels
      → Returns (IsAdded channels entries) (add_channels users observers channels entries)
  unfolding add_channels is_preset
  add_channels-IsAdded channels [] all = returned (record { from = all; there = λ key. refl })
  add_channels-IsAdded channels (entry ∷ entries) all =
      add_channel-IsAdded entry channels all ⟫ λ channels' a.
      weaken
        (λ r b. record { from = b.from; there = λ key. ground (arith, b.there key, a.there key) })
        (add_channels-IsAdded channels' entries a.from)

-- The channels that the files describe.
pub record IsConfigured (users observers entries : List Entry) (channels : List (Text × Channel))
    : Type 0 where
  pub titled :
      (key : Text) (channel : Channel)
      → lookup key channels ≡ some channel
      → (lowercased channel.name ≡ key) × (is_legal_name channel.name ≡ true)
  pub allowed :
      (key : Text) (channel : Channel) (user : Text)
      → lookup key channels ≡ some channel
      → has_key user channel.allowed_users ≡ is_allowed key user users
  pub observed :
      (key : Text) (channel : Channel)
      → lookup key channels ≡ some channel
      → channel.allow_observers ≡ is_observed key observers
  pub vacant :
      (key : Text) (channel : Channel) → lookup key channels ≡ some channel → channel.clients ≡ []
  pub there : (key : Text) → has_key key channels ≡ is_preset key entries

has_key-nil : (V : Type 0) (key : Text) → has_key {V = V} key [] ≡ false
unfolding has_key lookup
has_key-nil V key = refl

nil-AllFrom : (users : List (Text × Set Text)) (observers : Set Text) → AllFrom users observers []
unfolding lookup
nil-AllFrom users observers key channel e = ground (arith, e)

IsAdded-IsConfigured :
    (users observers entries : List Entry) (channels : List (Text × Channel))
    → IsAdded (channel_users [] users) (channel_observers [] observers) [] entries channels
    → IsConfigured users observers entries channels
unfolding given lookup
IsAdded-IsConfigured users observers entries channels a = record {
  titled = λ key channel e. ((a.from key channel e).titled, (a.from key channel e).legal);
  allowed = λ key channel user e. allowed_lem key channel user (a.from key channel e).allowed;
  observed = λ key channel e. ground (
    arith,
    (a.from key channel e).observed,
    has_key-channel_observers key [] observers,
    has_key-nil (Unit {0}) key,
  );
  vacant = λ key channel e. (a.from key channel e).vacant;
  there = λ key. ground (arith, a.there key, has_key-nil Channel key);
}
  where
    allowed_lem :
        (key : Text) (channel : Channel) (user : Text)
        → lookup key (channel_users [] users) ≡ some channel.allowed_users
        → has_key user channel.allowed_users ≡ is_allowed key user users
    allowed_lem key channel user e =
        sym (ap (λ o. has_key user (given o)) e)
        ∙ users_of-channel_users key user [] users
        ∙ ground (arith, has_key-nil (Unit {0}) user)

-- The channels that CIRCServer::Init creates are those that Channels.ini names, apart from the case
-- of letters: each has a name of the legal characters, admits the users that Channel_Users.ini names
-- for it and no others, allows observers exactly if Channel_Observers.ini says true, and has no
-- members.
pub preset_channels-IsConfigured :
    (users observers entries : List Entry) (channels : List (Text × Channel))
    → preset_channels users observers entries ≡ ok channels
    → IsConfigured users observers entries channels
unfolding preset_channels
preset_channels-IsConfigured users observers entries channels e =
    IsAdded-IsConfigured users observers entries channels (
      of_ok (
        subst (Returns _) e (
          throw_if-Returns (is_empty entries) _ ⟫ λ _ _.
          add_channels-IsAdded (channel_users [] users) (channel_observers [] observers) [] entries
            (nil-AllFrom (channel_users [] users) (channel_observers [] observers)))))
