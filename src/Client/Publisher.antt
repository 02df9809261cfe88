-- ===== src/Client/Publisher.antt =====
-- crates/worklane-pubsub/src/lib.rs: topics that stand for lanes. Logging is left out.
use worklane.Base.{
  ℕ, ◌≡◌, refl, ◌++◌, Option, none, some, List, [], ◌∷◌, ◌==◌, if◌then◌else◌, Bool-cases, inl, inr,
}
use worklane.Base.Assoc.{lookup, insert, lookup-insert}
use worklane.Base.Text.{Text, codes, text_Eq}
use worklane.Core.Envelope
use worklane.Core.Envelope.{JobId, Lane, Bytes, NewJob}
use worklane.Core.Error.{Error, Result, broker}
use worklane.Client.Builder.{build_job, enqueue_job_to_lanes}
use worklane.Client.State.{Act, Client, pure, throw, ◌>>=◌}

pub record PublishBuilder : Type 0 where
  pub builder : NewJob
  pub lanes : List Lane

unfoldable pub with_delay : ℕ → PublishBuilder → PublishBuilder
with_delay delay b = record b { builder = Envelope.with_delay delay b.builder }

unfoldable pub with_unique_key : Text → PublishBuilder → PublishBuilder
with_unique_key key b = record b { builder = Envelope.with_unique_key key b.builder }

unfoldable pub with_priority : ℕ → PublishBuilder → PublishBuilder
with_priority priority b = record b { builder = Envelope.with_priority priority b.builder }

unfoldable pub unknown_topic : Text → Error
unknown_topic topic = broker (codes "unknown topic: " ++ topic)

pub record Publisher (W : Type 0) : Type 0 where
  pub client : Client W
  pub routes : List (Text × List Lane)

module _ {W : Type 0} where
  unfoldable pub new : Client W → Publisher W
  new client = record { client = client; routes = [] }

  unfoldable pub route : Publisher W → Text → List Lane → Publisher W
  route p topic lanes = record p { routes = insert topic lanes p.routes }

  module _ (fresh_id : W → W × JobId) where
    -- The job is built only for a topic that is known.
    unfoldable pub build_routed :
        Client W → Text → Text → Result Bytes → Option (List Lane) → Act W PublishBuilder
    unfolding unknown_topic
    build_routed client topic kind encoded none = throw (unknown_topic topic)
    build_routed client topic kind encoded (some lanes) = do
      job ← build_job client fresh_id kind encoded
      pure (record { builder = job; lanes = lanes })

    unfoldable pub build_publish : Publisher W → Text → Text → Result Bytes → Act W PublishBuilder
    unfolding build_routed
    build_publish p topic kind encoded =
        build_routed p.client topic kind encoded (lookup topic p.routes)

    unfoldable pub publish_to : Client W → NewJob → List Lane → Act W (List JobId)
    publish_to client job [] = pure []
    publish_to client job (lane ∷ lanes) = enqueue_job_to_lanes client fresh_id job (lane ∷ lanes)

    unfoldable pub publish : Client W → PublishBuilder → Act W (List JobId)
    unfolding publish_to
    publish client b = publish_to client b.builder b.lanes

    -- A topic is published to the lanes that it was routed to last; a route of another topic does
    -- not matter.
    pub build_publish-route :
        (p : Publisher W) (topic asked kind : Text) (lanes : List Lane) (encoded : Result Bytes)
        → build_publish (route p topic lanes) asked kind encoded ≡ (
            if topic == asked
            then build_routed p.client asked kind encoded (some lanes)
            else build_publish p asked kind encoded)
    unfolding build_publish route
    build_publish-route p topic asked kind lanes encoded = elim (Bool-cases (topic == asked)) [
      | inl e ↦ rw (lookup-insert topic asked lanes p.routes, e) refl
      | inr e ↦ rw (lookup-insert topic asked lanes p.routes, e) refl
    ]
