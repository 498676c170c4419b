-- ===== src/Server/Queries.antt =====
-- The texts of the SQL queries, put together by sprintf with the client's words between quotes.
pub mod Lengths
use s.Prelude.{ℕ, ◌++◌}
use s.Clib.{Text, codes, decimal}

unfoldable pub insert_query : Text → Text → ℕ → Text → Text
insert_query filename filehash f_size peeraddr =
    codes "INSERT INTO files VALUES('"
    ++ (filename
        ++ (codes "', '"
            ++ (filehash
                ++ (codes "','"
                    ++ (decimal f_size ++ (codes "', '" ++ (peeraddr ++ codes "')")))))))

unfoldable pub delete_query : Text → Text → Text → Text
delete_query filename filehash peeraddr =
    codes "DELETE FROM files WHERE filename='"
    ++ (filename
        ++ (codes "' AND filehash = '"
            ++ (filehash ++ (codes "' AND peeraddr = '" ++ (peeraddr ++ codes "'")))))

abbrev pub list_query : Text
list_query = codes "SELECT DISTINCT filename,f_size,peeraddr FROM files ORDER BY filename ASC"

unfoldable pub request_query : Text → Text
request_query filename =
    codes "SELECT filename,peeraddr,f_size FROM files WHERE filename Like '%"
    ++ (filename ++ codes "' ORDER BY peeraddr ASC")

unfoldable pub leave_query : Text → Text
leave_query peeraddr = codes "DELETE FROM files WHERE peeraddr='" ++ (peeraddr ++ codes "'")

abbrev pub clear_query : Text
clear_query = codes "DELETE FROM files"
