-- ===== src/Service/Render.antt =====
-- src/app/render.py: the bytes of the responses and of the events.
use purepy.Base.{not, [], ◌∷◌, ◌++◌, if◌then◌else◌, Bytes, codes, text_eq, length}
use purepy.Base.Int.{pos}
use purepy.Base.Decimal.{str, encode_utf8}
use purepy.Service.Types.{UserResult, UpdateResult, Event}

abbrev pub newline : Bytes
newline = 10 ∷ []

unfoldable pub response : Bytes → Bytes → Bytes
response status body =
    codes "HTTP/1.1 "
    ++ (status
        ++ (codes "\r\nContent-Type: text/plain; charset=utf-8\r\nContent-Length: "
            ++ (encode_utf8 (str (pos (length body)))
                ++ (codes "\r\nConnection: close\r\n\r\n" ++ body))))

abbrev pub unavailable : Bytes
unavailable = response (codes "503 Service Unavailable") (codes "database unavailable\n")

abbrev pub no_user : Bytes
no_user = response (codes "404 Not Found") (codes "user not found\n")

unfoldable pub render_user : UserResult → Bytes
render_user result =
    if not (text_eq result.error [])
    then unavailable
    else if not result.found
    then no_user
    else response (codes "200 OK") (
        encode_utf8 (
          codes "user="
          ++ (str result.user.user_id
              ++ (codes " name="
                  ++ (result.user.name
                      ++ (codes " balance=" ++ (str result.user.balance ++ newline)))))))

unfoldable pub render_update : UpdateResult → Bytes
render_update result =
    if not (text_eq result.error [])
    then unavailable
    else if not result.applied
    then no_user
    else response (codes "200 OK")
        (encode_utf8 (codes "balance=" ++ (str result.balance ++ newline)))

unfoldable pub render_event : Event → Bytes
render_event event = encode_utf8 (
    codes "id: "
    ++ (str (pos event.event_id)
        ++ (codes "\nevent: balance\ndata: user="
            ++ (str event.user_id ++ (codes " balance=" ++ (str event.balance ++ codes "\n\n"))))))
