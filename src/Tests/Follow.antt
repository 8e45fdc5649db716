-- ===== src/Tests/Follow.antt =====
-- A run of a client that follows the stream: the first request after a change fails, the second is
-- answered from the cache.
use ripcord.Prelude.{ℕ, suc, Option, none, some, [], ◌∷◌}
use ripcord.Prelude.Dict
use ripcord.Sdk.Client.{Response}
use ripcord.Sdk.Fresh.{texts_response}
use ripcord.Sdk.Follow
use ripcord.Tests.Codec.{stack_codec}
use ripcord.Services.Ordered.{Ordered}
use ripcord.Tests.Current.{payload}

abbrev responses : ℕ → Option Response
responses (suc (suc n)) = some (texts_response stack_codec (payload ∷ []))
responses _ = none
