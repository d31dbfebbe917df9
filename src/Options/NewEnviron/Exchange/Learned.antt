-- ===== src/Options/NewEnviron/Exchange/Learned.antt =====
-- What a client learns of a server (src/options/new_environ) by the bytes that the two exchange.
use telnetpp.Prelude.{
  ◌≡◌, refl, ap, ◌∙◌, Bool, true, false, List, [], ◌∷◌, Bytes, some, none, is_empty,
}
use telnetpp.Element.{subnegotiation}
use telnetpp.Generator.RoundTrip.{wire}
use telnetpp.TelnetOption.{TelnetOption, active, write_subnegotiation}
use telnetpp.Session.{Channel, Install, installed, receive}
use telnetpp.Session.Registration.{subnegotiation_target}
use telnetpp.Session.Delivery.{receive-subnegotiation}
use telnetpp.Options.NewEnviron.{Request, Response, var, uservar}
use telnetpp.Options.NewEnviron.Requests.{request_content}
use telnetpp.Options.NewEnviron.Responses.{for_each_response}
use telnetpp.Options.NewEnviron.Server
use telnetpp.Options.NewEnviron.Server.{
  Server, handle_subnegotiation, broadcast_variable_update, broadcast_variable_deletion,
}
use telnetpp.Options.NewEnviron.Storage.{Call, sets, deletes, call, server_after}
use telnetpp.Options.NewEnviron.Query.{AllNamed, answers, for_each_response-broadcast}
use telnetpp.Options.NewEnviron.Client.{
  option, client, signal_each, client_handle_subnegotiation, receive-handle_subnegotiation,
}
use telnetpp.Options.NewEnviron.Exchange.{
  request_variables, server_handle_subnegotiation, server_set_variable, server_delete_variable,
  server_set_user_variable, server_delete_user_variable, host_call, Host, requester,
  request_variables-wire, host_channel, host_server, on_app, write-host,
}

-- The bytes of a subnegotiation of the option.
abbrev framed : Bytes → Bytes
framed content = wire (subnegotiation (record { option = option; content = content }) ∷ [])

module _ {A : Type 0} where
  abbrev pub host : Server → A → Host A
  host s a = record { state = active; storage = s; sent = []; app = a }

  answered :
      (his : List (Install (Host A))) (f : Bytes → A → A) (a : A) (s : Server) (content : Bytes)
      → subnegotiation_target his option ≡ some host_server
      → (receive (on_app f) (framed content) (installed host_channel his, host s a)).1.sent
        ≡ framed (handle_subnegotiation content s)
  unfolding server_handle_subnegotiation write_subnegotiation
  answered his f a s content t =
      ap (λ h. h.sent)
        (receive-subnegotiation host_channel his (on_app f) host_server content (host s a) t refl
          ∙ ap (on_app f []) (
              write-host
                (subnegotiation
                  (record { option = option; content = handle_subnegotiation content s }))
                (host s a)))

module _ {W A : Type 0} (slot : Response → W → W) (base : TelnetOption W) where
  -- A client asks for variables, none with an empty name. Its bytes are read by a session on which
  -- the server is the latest option with its code, and active, and what that session has sent then
  -- is read by a session on which the client is. The client's slot is called with the value of each
  -- variable that the calls on the server have left with one, in the order of the requests, and
  -- then the application with no data.
  pub receive-request_variables :
      (his : List (Install (Host A))) (f : Bytes → A → A) (a : A) (channel : Channel W)
      (is : List (Install W)) (callback : Bytes → W → W) (w : W) (cs : List (Bool × Call))
      (r : Request) (reqs : List Request)
      → subnegotiation_target his option ≡ some host_server
      → subnegotiation_target is option ≡ some (client slot base)
      → base.state w ≡ active
      → AllNamed (r ∷ reqs)
      → let asked =
          (request_variables requester (r ∷ reqs) (record { sent = []; received = [] })).sent in
        let answer =
          (receive
            (on_app f)
            asked
            (installed host_channel his, host (server_after cs) a)).1.sent in
        (receive callback answer (installed channel is, w)).1
        ≡ callback [] (signal_each slot base (answers cs (r ∷ reqs)) w)
  receive-request_variables his f a channel is callback w cs r reqs t u on h =
      ap (λ bytes. (receive callback bytes (installed channel is, w)).1)
        (ap
            (λ bytes.
              (receive (on_app f) bytes
                (installed host_channel his, host (server_after cs) a)).1.sent)
            (request_variables-wire (r ∷ reqs))
          ∙ answered his f a (server_after cs) (request_content (r ∷ reqs)) t)
      ∙ receive-handle_subnegotiation slot base channel is callback w cs r reqs u on h

-- What a call changes, as a client is told.
abbrev pub announced : Call → Response
announced (sets t name value) = record { type = t; name = name; value = some value }
announced (deletes t name) = record { type = t; name = name; value = none }

-- The content that is written for a call.
abbrev content_of : Call → Bytes
content_of (sets t name value) = broadcast_variable_update t name value
content_of (deletes t name) = broadcast_variable_deletion t name

content_of-announced :
    (c : Call)
    → is_empty (announced c).name ≡ false
    → for_each_response (content_of c) ≡ announced c ∷ []
content_of-announced (sets t name value) h = (for_each_response-broadcast t name value h).0
content_of-announced (deletes t name) h = (for_each_response-broadcast t name [] h).1

host_call-active :
    {A : Type 0} (c : Call) (s : Server) (a : A)
    → host_call c (host s a) ≡ record (host (call true c s) a) { sent = framed (content_of c) }
unfolding call server_set_variable server_delete_variable server_set_user_variable
    server_delete_user_variable Server.set_variable Server.delete_variable Server.set_user_variable
    Server.delete_user_variable write_subnegotiation
host_call-active (sets var name value) s a = write-host _ _
host_call-active (sets uservar name value) s a = write-host _ _
host_call-active (deletes var name) s a = write-host _ _
host_call-active (deletes uservar name) s a = write-host _ _

-- While the server is active, a call on it that sets or deletes a variable, whose name is not empty,
-- changes its maps as the call does and sends what a session, on which the client is the latest
-- option with its code, and active, reads: the client's slot is called once, with the variable and
-- its new value or none, and then the application with no data.
pub receive-host_call :
    {W A : Type 0} (slot : Response → W → W) (base : TelnetOption W) (channel : Channel W)
    (is : List (Install W)) (callback : Bytes → W → W) (w : W) (c : Call) (s : Server) (a : A)
    → subnegotiation_target is option ≡ some (client slot base)
    → base.state w ≡ active
    → is_empty (announced c).name ≡ false
    → ((host_call c (host s a)).storage ≡ call true c s)
      × ((receive callback (host_call c (host s a)).sent (installed channel is, w)).1
          ≡ callback [] (slot (announced c) w))
unfolding client_handle_subnegotiation
receive-host_call slot base channel is callback w c s a u on h = (
  ap (λ x. x.storage) (host_call-active c s a),
  ap (λ x. (receive callback x.sent (installed channel is, w)).1) (host_call-active c s a)
      ∙ receive-subnegotiation channel is callback (client slot base) (content_of c) w u on
      ∙ ap (λ rs. callback [] (signal_each slot base rs w)) (content_of-announced c h),
)
