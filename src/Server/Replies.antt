-- ===== src/Server/Replies.antt =====
-- The lines that the server sends. Their Chinese text is in the bytes of the source file's encoding.
use s.Prelude.{[], ◌∷◌, ◌++◌}
use s.Clib.{Text, codes}

abbrev pub accept_line : Text
accept_line = codes "ACCEPT"

-- "OK" and a line end; LIST ends its answer with "OK" alone.
abbrev pub ok_line : Text
ok_line = codes "OK" ++ 10 ∷ []

abbrev pub list_end : Text
list_end = codes "OK"

abbrev pub goodbye_line : Text
goodbye_line = codes "GOODBYE" ++ 10 ∷ []

-- Adding failed: the file is in the database already.
unfoldable pub add_exists : Text
add_exists =
    codes "ERROR "
    ++ (204 ∷ 237 ∷ 188 ∷ 211 ∷ 206 ∷ 196 ∷ 188 ∷ 254 ∷ 202 ∷ 167 ∷ 176 ∷ 220 ∷ 163 ∷ 172 ∷ 183
        ∷ 254 ∷ 206 ∷ 241 ∷ 198 ∷ 247 ∷ 202 ∷ 253 ∷ 190 ∷ 221 ∷ 191 ∷ 226 ∷ 214 ∷ 208 ∷ 210 ∷ 209
        ∷ 190 ∷ 173 ∷ 180 ∷ 230 ∷ 212 ∷ 218 ∷ 181 ∷ 177 ∷ 199 ∷ 176 ∷ 206 ∷ 196 ∷ 188 ∷ 254 ∷ 10
        ∷ [])

-- Adding failed, with the message of the database.
unfoldable pub add_failed : Text → Text
add_failed message =
    codes "ERROR "
    ++ ((204 ∷ 237 ∷ 188 ∷ 211 ∷ 206 ∷ 196 ∷ 188 ∷ 254 ∷ 208 ∷ 197 ∷ 207 ∷ 162 ∷ 181 ∷ 189 ∷ 202
          ∷ 253 ∷ 190 ∷ 221 ∷ 191 ∷ 226 ∷ 202 ∷ 167 ∷ 176 ∷ 220 ∷ 163 ∷ 172 ∷ 180 ∷ 237 ∷ 206 ∷ 243
          ∷ [])
        ++ (message ++ 58 ∷ 10 ∷ []))

-- Adding failed: the format of the arguments.
unfoldable pub add_format : Text
add_format =
    codes "ERROR "
    ++ (204 ∷ 237 ∷ 188 ∷ 211 ∷ 206 ∷ 196 ∷ 188 ∷ 254 ∷ 202 ∷ 167 ∷ 176 ∷ 220 ∷ 163 ∷ 172 ∷ 180
        ∷ 171 ∷ 200 ∷ 235 ∷ 178 ∷ 206 ∷ 202 ∷ 253 ∷ 181 ∷ 196 ∷ 184 ∷ 241 ∷ 202 ∷ 189 ∷ 180 ∷ 237
        ∷ 206 ∷ 243 ∷ 10 ∷ [])

-- Deleting failed, for no known reason.
unfoldable pub delete_failed : Text
delete_failed =
    codes "ERROR "
    ++ (180 ∷ 211 ∷ 202 ∷ 253 ∷ 190 ∷ 221 ∷ 191 ∷ 226 ∷ 214 ∷ 208 ∷ 201 ∷ 190 ∷ 179 ∷ 253 ∷ 206
        ∷ 196 ∷ 188 ∷ 254 ∷ 202 ∷ 167 ∷ 176 ∷ 220 ∷ 163 ∷ 172 ∷ 212 ∷ 173 ∷ 210 ∷ 242 ∷ 206 ∷ 180
        ∷ 214 ∷ 170 ∷ 10 ∷ [])

-- Deleting failed: the format of the arguments.
unfoldable pub delete_format : Text
delete_format =
    codes "ERROR "
    ++ (201 ∷ 190 ∷ 179 ∷ 253 ∷ 206 ∷ 196 ∷ 188 ∷ 254 ∷ 202 ∷ 167 ∷ 176 ∷ 220 ∷ 163 ∷ 172 ∷ 180
        ∷ 171 ∷ 200 ∷ 235 ∷ 178 ∷ 206 ∷ 202 ∷ 253 ∷ 181 ∷ 196 ∷ 184 ∷ 241 ∷ 202 ∷ 189 ∷ 180 ∷ 237
        ∷ 206 ∷ 243 ∷ 10 ∷ [])

-- The records could not be read.
unfoldable pub list_failed : Text
list_failed =
    codes "ERROR "
    ++ (206 ∷ 180 ∷ 196 ∷ 220 ∷ 187 ∷ 241 ∷ 181 ∷ 195 ∷ 203 ∷ 249 ∷ 211 ∷ 208 ∷ 188 ∷ 199 ∷ 194
        ∷ 188 ∷ 163 ∷ 172 ∷ 183 ∷ 254 ∷ 206 ∷ 241 ∷ 182 ∷ 203 ∷ 202 ∷ 253 ∷ 190 ∷ 221 ∷ 191 ∷ 226
        ∷ 180 ∷ 237 ∷ 206 ∷ 243 ∷ 10 ∷ [])

-- The information on the file could not be read.
unfoldable pub request_failed : Text
request_failed =
    codes "ERROR "
    ++ (206 ∷ 180 ∷ 196 ∷ 220 ∷ 179 ∷ 201 ∷ 185 ∷ 166 ∷ 187 ∷ 241 ∷ 200 ∷ 161 ∷ 206 ∷ 196 ∷ 188
        ∷ 254 ∷ 208 ∷ 197 ∷ 207 ∷ 162 ∷ 163 ∷ 172 ∷ 202 ∷ 253 ∷ 190 ∷ 221 ∷ 191 ∷ 226 ∷ 180 ∷ 237
        ∷ 206 ∷ 243 ∷ 10 ∷ [])

-- No file name in the request.
unfoldable pub request_format : Text
request_format =
    codes "ERROR "
    ++ (195 ∷ 187 ∷ 196 ∷ 220 ∷ 179 ∷ 201 ∷ 185 ∷ 166 ∷ 187 ∷ 241 ∷ 181 ∷ 195 ∷ 199 ∷ 235 ∷ 199
        ∷ 243 ∷ 181 ∷ 196 ∷ 206 ∷ 196 ∷ 188 ∷ 254 ∷ 195 ∷ 251 ∷ 32 ∷ 10 ∷ [])

-- No such command.
unfoldable pub unknown_line : Text
unknown_line = codes "ERROR " ++ (178 ∷ 206 ∷ 202 ∷ 253 ∷ 180 ∷ 237 ∷ 206 ∷ 243 ∷ 10 ∷ [])

-- The pool has no thread left.
unfoldable pub overload_line : Text
overload_line =
    codes "Server: "
    ++ (211 ∷ 195 ∷ 187 ∷ 167 ∷ 207 ∷ 251 ∷ 207 ∷ 162 ∷ 32 ∷ 183 ∷ 254 ∷ 32 ∷ 206 ∷ 241 ∷ 32 ∷ 198
        ∷ 247 ∷ 32 ∷ 184 ∷ 186 ∷ 32 ∷ 212 ∷ 216 ∷ 32 ∷ 185 ∷ 253 ∷ 32 ∷ 180 ∷ 243 ∷ 32 ∷ 44 ∷ 32
        ∷ 199 ∷ 235 ∷ 32 ∷ 201 ∷ 212 ∷ 32 ∷ 186 ∷ 243 ∷ 32 ∷ 212 ∷ 217 ∷ 32 ∷ 202 ∷ 212 ∷ 32 ∷ 10
        ∷ [])
