-- ===== src/Authz/ExecChain.antt =====
-- `execChainGrantee` of util/authz.ts: whose authorization a claim message used up.
use ixo_blocksync.Base.{
  ◌≡◌, ◌≢◌, refl, subst, Bool, true, false, String, Option, none, some, arith, ◌==◌, string_eq,
  if◌then◌else◌, ◌⊎◌, inl, inr,
}

-- The claim id of a message that the claim codecs may read.
pub data ClaimId : Type 0 where
  no_codec : ClaimId
  unreadable : ClaimId
  read : String → ClaimId

mutual
  -- A message in a MsgExec as the code can read it.
  pub data Message : Type 0 where
    -- a MsgExec that decodes: its grantee, "" where it is missing, and its messages
    exec : String → Messages → Message
    claim : (type_url : String) (claim_id : ClaimId) → Message
    other : Message
    -- a MsgExec whose bytes do not decode
    undecodable : Message

  pub data Messages : Type 0 where
    done : Messages
    more : Message → Messages → Messages

module _ (claim_msg_type_url : String) (claim_id : Option String) where
  -- Does the message end the walk? `claim_id` is `none` where it is "" or undefined.
  unfoldable pub is_wanted : String → ClaimId → Bool
  is_wanted type_url found =
      if type_url == claim_msg_type_url
      then elim claim_id [
        | none ↦ true
        | some wanted ↦ elim found [ no_codec ↦ true | unreadable ↦ false | read id ↦ id == wanted ]
      ]
      else false

  unfoldable mutual
    -- the loop over `exec.msgs`
    pub walk_messages : String → Messages → Option String
    walk_messages grantee done = none
    walk_messages grantee (more m msgs) = elim (walk_message grantee m) [
      | none ↦ walk_messages grantee msgs
      | some found ↦ some found
    ]

    -- the loop's body: the grantee with which it returns
    pub walk_message : String → Message → Option String
    walk_message grantee (exec inner msgs) = if inner == "" then none else walk_messages inner msgs
    walk_message grantee (claim type_url id) = if is_wanted type_url id then some grantee else none
    walk_message grantee other = none
    walk_message grantee undecodable = none

  -- `walk`
  unfoldable pub walk : String → Messages → Option String
  walk grantee msgs = if grantee == "" then none else walk_messages grantee msgs

  -- `execChainGrantee`
  unfoldable pub exec_chain_grantee : Message → Option String
  exec_chain_grantee (exec grantee msgs) = walk grantee msgs
  exec_chain_grantee (claim type_url id) = none
  exec_chain_grantee other = none
  exec_chain_grantee undecodable = none

  mutual
    -- Some wanted claim message stands directly in a MsgExec of `found`, at any depth below the
    -- message, each MsgExec on the way naming its grantee.
    pub data Wraps : Message → String → Type 0 where
      named :
          {grantee : String} {msgs : Messages} {found : String}
          → grantee ≢ ""
          → WrapsAmong grantee msgs found
          → Wraps (exec grantee msgs) found

    pub data WrapsAmong : String → Messages → String → Type 0 where
      direct :
          {grantee : String} {type_url : String} {id : ClaimId} {msgs : Messages}
          → is_wanted type_url id ≡ true
          → WrapsAmong grantee (more (claim type_url id) msgs) grantee
      nested :
          {grantee : String} {m : Message} {msgs : Messages} {found : String}
          → Wraps m found
          → WrapsAmong grantee (more m msgs) found
      later :
          {grantee : String} {m : Message} {msgs : Messages} {found : String}
          → WrapsAmong grantee msgs found
          → WrapsAmong grantee (more m msgs) found

  not_empty :
      (s : String) (x : Option String) (found : String)
      → (if s == "" then none else x) ≡ some found
      → (s ≢ "") × (x ≡ some found)
  not_empty s x found h = ground (arith, string_eq.beq_iff s "")

  first_found :
      (x y : Option String) (found : String)
      → elim x as (λ _. Option String) [ none ↦ y | some z ↦ some z ] ≡ some found
      → (x ≡ some found) ⊎ (y ≡ some found)
  first_found none y found h = inr h
  first_found (some z) y found h = inl h

  test_passed :
      (b : Bool) (g found : String)
      → (if b then some g else none) ≡ some found
      → (b ≡ true) × (g ≡ found)
  test_passed b g found h = ground arith

  mutual
    unfolding walk_messages

    walk_messages-WrapsAmong :
        (grantee : String) (msgs : Messages) (found : String)
        → walk_messages grantee msgs ≡ some found
        → WrapsAmong grantee msgs found
    walk_messages-WrapsAmong grantee done found h = ground arith
    walk_messages-WrapsAmong grantee (more m msgs) found h =
        elim (first_found (walk_message grantee m) (walk_messages grantee msgs) found h) [
          | inl at ↦ walk_message-WrapsAmong grantee m msgs found at
          | inr at ↦ later (walk_messages-WrapsAmong grantee msgs found at)
        ]

    walk_message-WrapsAmong :
        (grantee : String) (m : Message) (msgs : Messages) (found : String)
        → walk_message grantee m ≡ some found
        → WrapsAmong grantee (more m msgs) found
    walk_message-WrapsAmong grantee (exec inner below) msgs found h =
        let (ne, at) = not_empty inner (walk_messages inner below) found h in
        nested (named ne (walk_messages-WrapsAmong inner below found at))
    walk_message-WrapsAmong grantee (claim type_url id) msgs found h =
        let (wanted, at) = test_passed (is_wanted type_url id) grantee found h in
        subst (λ g. WrapsAmong grantee (more (claim type_url id) msgs) g) at (direct wanted)
    walk_message-WrapsAmong grantee other msgs found h = ground arith
    walk_message-WrapsAmong grantee undecodable msgs found h = ground arith

  mutual
    unfolding walk_messages

    Wraps-walk_message :
        (grantee : String) (m : Message) (found : String)
        → Wraps m found
        → walk_message grantee m ≢ none
    Wraps-walk_message grantee m found (named {grantee = inner} {msgs = msgs} ne w) =
        ground (arith, string_eq.beq_iff inner "", WrapsAmong-walk_messages inner msgs found w)

    WrapsAmong-walk_messages :
        (grantee : String) (msgs : Messages) (found : String)
        → WrapsAmong grantee msgs found
        → walk_messages grantee msgs ≢ none
    WrapsAmong-walk_messages grantee msgs found (direct wanted) = ground (arith, wanted)
    WrapsAmong-walk_messages grantee msgs found (nested {m = m} w) =
        ground (arith, Wraps-walk_message grantee m found w)
    WrapsAmong-walk_messages grantee msgs found (later {msgs = rest} w) =
        ground (arith, WrapsAmong-walk_messages grantee rest found w)

  is_exec : Message → Bool
  is_exec (exec grantee msgs) = true
  is_exec (claim type_url id) = false
  is_exec other = false
  is_exec undecodable = false

  Wraps-is_exec : (m : Message) (grantee : String) → Wraps m grantee → is_exec m ≡ true
  unfolding is_exec
  Wraps-is_exec m grantee (named ne w) = refl

  -- The grantee that `exec_chain_grantee` finds wraps a wanted claim message: some such message
  -- stands directly in a MsgExec of that grantee.
  pub exec_chain_grantee-Wraps :
      (top : Message) (grantee : String) → exec_chain_grantee top ≡ some grantee → Wraps top grantee
  unfolding exec_chain_grantee walk walk_messages
  exec_chain_grantee-Wraps (exec outer msgs) grantee h =
      let (ne, at) = not_empty outer (walk_messages outer msgs) grantee h in
      named ne (walk_messages-WrapsAmong outer msgs grantee at)
  exec_chain_grantee-Wraps (claim type_url id) grantee h = ground arith
  exec_chain_grantee-Wraps other grantee h = ground arith
  exec_chain_grantee-Wraps undecodable grantee h = ground arith

  -- Where `exec_chain_grantee` finds no grantee, no grantee wraps a wanted claim message.
  exec_chain_grantee-none :
      (top : Message) (grantee : String) → exec_chain_grantee top ≡ none → ¬ Wraps top grantee
  unfolding exec_chain_grantee walk walk_messages is_exec
  exec_chain_grantee-none (exec outer msgs) grantee h w =
      Wraps-walk_message "" (exec outer msgs) grantee w h
  exec_chain_grantee-none (claim type_url id) grantee h w =
      ground (arith, Wraps-is_exec _ grantee w)
  exec_chain_grantee-none other grantee h w = ground (arith, Wraps-is_exec _ grantee w)
  exec_chain_grantee-none undecodable grantee h w = ground (arith, Wraps-is_exec _ grantee w)
